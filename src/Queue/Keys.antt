-- ===== src/Queue/Keys.antt =====
-- pkg/queue/keys.go: the names of a queue's four Redis keys.
pub mod Distinct
use laravel_queue_go.Prelude.{◌++◌}
use laravel_queue_go.Prelude.Bytes.{Bytes, codes}

unfoldable pub ready : Bytes → Bytes → Bytes
ready prefix queue = prefix ++ (codes "queues:" ++ queue)

unfoldable pub delayed : Bytes → Bytes → Bytes
delayed prefix queue = prefix ++ (codes "queues:" ++ (queue ++ codes ":delayed"))

unfoldable pub reserved : Bytes → Bytes → Bytes
reserved prefix queue = prefix ++ (codes "queues:" ++ (queue ++ codes ":reserved"))

unfoldable pub notify : Bytes → Bytes → Bytes
notify prefix queue = prefix ++ (codes "queues:" ++ (queue ++ codes ":notify"))
