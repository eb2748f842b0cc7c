-- ===== src/Http/Download.antt =====
-- `_process_download` of http1.0/src/zhttp.c: the body of a response written to a file.
pub mod Laws
use mydns.Prelude.{
  ℕ, zero, suc, ◌+◌, ◌-◌, ◌<◌, ◌≤◌, ◌≡◌, List, [], ◌∷◌, ◌++◌, length, take, drop, ltb,
  if◌then◌else◌, Option, none, some, Bool, true, false, Outcome, done, fault, ◌>>=◌, overlay,
  strlen, c_text, ◌==◌, replicate, read,
}
use mydns.Http.Search.{find}

abbrev pub buff_size : ℕ
buff_size = 1024

strstr_in : Option ℕ → Outcome ℕ → Outcome (Option ℕ)
strstr_in (some p) len = done (some p)
strstr_in none len = do n ← len; done none

-- `strstr(*buf, "\r\n\r\n")` on a block, which runs over its end when it holds no terminator
-- and no blank line.
unfoldable pub strstr : List ℕ → Outcome (Option ℕ)
unfolding strstr_in
strstr buf = strstr_in (find (c_text buf)) (strlen buf)

-- What one round writes to the file, for `len` bytes read into `buf`. A header that seems to end
-- behind the bytes read makes the size to write negative.
pub write_chunk : List ℕ → ℕ → Option ℕ → Outcome (List ℕ)
write_chunk buf len none = done (take len buf)
write_chunk buf len (some p) =
    if ltb len (p + 4) then fault else done (take (len - (p + 4)) (drop (p + 4) buf))

-- `while ((len = read(sock, *buf, BUFF_SIZE)) > 0)`, over the bytes that each call stored. `buf`
-- keeps what earlier calls left behind the new bytes.
unfoldable pub download_loop : List (List ℕ) → List ℕ → List ℕ → Outcome (List ℕ)
download_loop [] buf file = done file
download_loop ([] ∷ cs) buf file = done file
download_loop ((b ∷ bs) ∷ cs) buf file = do
  let filled = overlay (b ∷ bs) buf
  p ← strstr filled
  written ← write_chunk filled (length (b ∷ bs)) p
  download_loop cs filled (file ++ written)

-- `_process_download` on the cleared block: `none` is the result -1, when the file cannot be
-- opened, otherwise the file's content, with the result 0.
unfoldable pub process_download : Bool → List (List ℕ) → Outcome (Option (List ℕ))
process_download opened cs =
    if opened
    then (do file ← download_loop cs (replicate buff_size 0) []; done (some file))
    else done none
