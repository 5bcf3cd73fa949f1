-- ===== src/Codec/Tests.antt =====
-- The key codec at concrete numbers.
use librocks_dll.Prelude.{◌≡◌, arith}
use librocks_dll.Prelude.Tests.{ltb}
use librocks_dll.Prelude.Text.{text_lt}
use librocks_dll.Codec.Bytes.{put_u64_be, get_u64_be}
use librocks_dll.Codec.RoundTrip.{get_u64_be-put_u64_be}
use librocks_dll.Codec.Order.{text_lt-put_u64_be}

get_u64_be-put_u64_be_example : get_u64_be (put_u64_be 258) ≡ 258
get_u64_be-put_u64_be_example = get_u64_be-put_u64_be 258 (omega arith)

text_lt-put_u64_be_example : text_lt (put_u64_be 255) (put_u64_be 256) ≡ ltb 255 256
text_lt-put_u64_be_example = text_lt-put_u64_be 255 256 (omega arith) (omega arith)
