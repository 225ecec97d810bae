-- ===== src/Strconv/Tests.antt =====
-- Numbers printed and read back.
use laravel_queue_go.Prelude.{◌≡◌, arith, some}
use laravel_queue_go.Prelude.Int.{negsuc, max_int64}
use laravel_queue_go.Strconv.{parse_int, format_int}
use laravel_queue_go.Strconv.RoundTrip.{parse_int-format}

-- The least int64.
parse_int-format_example : parse_int (format_int (negsuc max_int64)) ≡ some (negsuc max_int64)
parse_int-format_example = parse_int-format (negsuc max_int64) (omega arith, omega arith)
