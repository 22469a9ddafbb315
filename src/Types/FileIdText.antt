-- ===== src/Types/FileIdText.antt =====
-- The text form of file ids.
use go_blob.Base.{
  ℕ, ◌-◌, ◌<◌, ◌≡◌, ◌++◌, arith, length, length-append, take, drop, take-append_length,
  drop-append_length, u32, u64,
}
use go_blob.Strconv.{format_dec, format_hex}
use go_blob.Strconv.Laws.{
  parse_uint-format_dec, parse_uint-format_hex, length-format_hex, cut-format_dec,
}
use go_blob.Types.{FileId, ok, file_id_string, parse_file_id, parse_file_id_parts}

-- The ranges of the Go types of the fields.
pub record IsFileId (f : FileId) : Type 0 where
  pub volume_id : f.volume_id < u32
  pub needle_id : f.needle_id < u64
  pub cookie : f.cookie < u32

hex_tail : (id cookie : ℕ) → length (format_hex 16 id ++ format_hex 8 cookie) ≡ 24
hex_tail id cookie = omega (
  arith,
  length-append (format_hex 16 id) (format_hex 8 cookie),
  length-format_hex 16 id,
  length-format_hex 8 cookie,
)

take_id : (id cookie : ℕ) → take 16 (format_hex 16 id ++ format_hex 8 cookie) ≡ format_hex 16 id
take_id id cookie =
    rw (length-format_hex 16 id) at (take-append_length (format_hex 16 id) (format_hex 8 cookie))

drop_id : (id cookie : ℕ) → drop 16 (format_hex 16 id ++ format_hex 8 cookie) ≡ format_hex 8 cookie
drop_id id cookie =
    rw (length-format_hex 16 id) at (drop-append_length (format_hex 16 id) (format_hex 8 cookie))

parts-file_id_string :
    (f : FileId)
    → IsFileId f
    → parse_file_id_parts
        (format_dec 9 f.volume_id)
        (format_hex 16 f.needle_id ++ format_hex 8 f.cookie)
      ≡ ok f
unfolding parse_file_id_parts
parts-file_id_string f h = simp (
  hex_tail,
  take_id,
  drop_id,
  parse_uint-format_dec 9 (u32 - 1) f.volume_id (omega arith) (omega arith),
  parse_uint-format_hex 7 (u32 - 1) f.cookie (omega arith) (omega arith),
  parse_uint-format_hex 15 (u64 - 1) f.needle_id (omega arith) (omega arith),
)

-- ParseFileId returns every file id whose fields are in the range of their Go types from the text
-- that String prints for it.
pub parse_file_id-file_id_string :
    (f : FileId) → IsFileId f → parse_file_id (file_id_string f) ≡ ok f
unfolding parse_file_id file_id_string
parse_file_id-file_id_string f h =
    rw
      (
        cut-format_dec b',' 9 f.volume_id (format_hex 16 f.needle_id ++ format_hex 8 f.cookie)
            (omega arith) (omega arith),
        parse_file_id,
      )
      (parts-file_id_string f h)
