-- ===== src/PhpSerialize/Decoder.antt =====
-- pkg/phpserialize/decoder.go. `Cursor` holds data[pos:] as `rest`; a step over the end leaves it
-- empty. While a container is being filled its slot of `refs` holds the pointer to it, `back_ref`,
-- and once it is closed the container itself. Of an error only its kind is kept.
mod Reads
mod Grammar
unfoldable pub use Reads.*
unfoldable pub use Grammar.*
