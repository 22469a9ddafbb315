-- ===== src/Needle/Corrupt.antt =====
-- ReadFrom on bytes that nothing wrote: what it accepts, and where it panics.
use go_blob.Base.{
  subst, ℕ, ◌+◌, ◌%◌, ◌≤◌, ◌<◌, ◌≡◌, ◌≢◌, ◌↔◌, refl, List, arith, length, take, drop, u32,
}
use go_blob.Bytes.{get_be}
use go_blob.Needle.{Needle, new_crc32, needle_align_padding}
use go_blob.Needle.Write.{body_bytes}
use go_blob.Needle.Read.{
  Read, ok, err, panic, Cursor, next_bytes, next_byte, read_data, read_name, read_mime, read_pairs,
  read_last_modified, read_ttl, read_footer, read_body, verify_checksum, read_from, read_sized,
  read_header, ◌>>=◌,
}

abbrev pub body_length : List ℕ → ℕ
body_length input = get_be (take 4 (drop 12 input))

>>=-panic :
    {A B : Type 0} (m : Read A) (f : A → Read B)
    → m ≢ panic
    → ((a : A) → f a ≢ panic)
    → (m >>= f) ≢ panic
>>=-panic (ok a) f hm hf = hf a
>>=-panic (err e) f hm hf = λ p. cc
>>=-panic panic f hm hf = λ p. hm refl

read_data-panic : (c : Cursor) → read_data c ≢ panic
unfolding read_data next_bytes next_byte
read_data-panic c = ground arith

read_name-panic : (c : Cursor) → read_name c ≢ panic
unfolding read_name next_bytes next_byte
read_name-panic c = ground arith

read_mime-panic : (c : Cursor) → read_mime c ≢ panic
unfolding read_mime next_bytes next_byte
read_mime-panic c = ground arith

read_pairs-panic : (c : Cursor) → read_pairs c ≢ panic
unfolding read_pairs next_bytes
read_pairs-panic c = ground arith

read_last_modified-panic : (c : Cursor) → read_last_modified c ≢ panic
unfolding read_last_modified next_bytes
read_last_modified-panic c = ground arith

read_ttl-panic : (c : Cursor) → read_ttl c ≢ panic
unfolding read_ttl next_bytes
read_ttl-panic c = ground arith

read_footer-panic : (version : ℕ) (c : Cursor) → read_footer version c ≢ panic
unfolding read_footer next_bytes
read_footer-panic version c = ground arith

verify_checksum-panic : (n : Needle) → verify_checksum n ≢ panic
unfolding verify_checksum
verify_checksum-panic n = ground arith

read_body-panic : (version : ℕ) (n : Needle) (body : List ℕ) → read_body version n body ≢ panic
unfolding read_body
read_body-panic version n body = >>=-panic _ _ (read_data-panic (n, body)) λ c.
    >>=-panic _ _ (read_name-panic c) λ c. >>=-panic _ _ (read_mime-panic c) λ c.
      >>=-panic _ _ (read_pairs-panic c) λ c. >>=-panic _ _ (read_last_modified-panic c) λ c.
        >>=-panic _ _ (read_ttl-panic c)
          λ c. >>=-panic _ _ (read_footer-panic version c) λ n. verify_checksum-panic n

read_sized-panic :
    (version size : ℕ) (n : Needle) (input : List ℕ)
    → 16 ≤ length input
    → length input < u32
    → size < u32
    → (read_sized version n size input ≡ panic) ↔ (u32 ≤ 16 + size)
unfolding read_sized
read_sized-panic version size n input lo hi small =
    ground (arith, read_body-panic version n (take size (drop 16 input)))

-- On data that holds a header and is shorter than 4 GiB, ReadFrom panics exactly when the body size
-- in the header, a uint32, is so large that adding the 16 bytes of the header to it wraps round.
pub read_from-panic_iff :
    (version : ℕ) (n : Needle) (input : List ℕ)
    → 16 ≤ length input
    → length input < u32
    → body_length input < u32
    → (read_from n input version ≡ panic) ↔ (u32 ≤ 16 + body_length input)
unfolding read_from
read_from-panic_iff version n input lo hi small =
    ground
      (arith, read_sized-panic version (body_length input) (read_header n input) input lo hi small)

abbrev IsVerified : Needle → Type 0
IsVerified n = new_crc32 n.cookie n.id (body_bytes n) ≡ n.checksum

-- Every needle that a step returns is verified.
abbrev Ends : Read Needle → Type 0
Ends r = (m : Needle) → r ≡ ok m → IsVerified m

verify_checksum-Ends : (n : Needle) → Ends (verify_checksum n)
unfolding verify_checksum
verify_checksum-Ends n m h = ground arith

>>=-Ends : {A : Type 0} (m : Read A) (f : A → Read Needle) → ((a : A) → Ends (f a)) → Ends (m >>= f)
>>=-Ends (ok a) f h = h a
>>=-Ends (err e) f h = λ m p. cc
>>=-Ends panic f h = λ m p. cc

read_body-Ends : (version : ℕ) (n : Needle) (body : List ℕ) → Ends (read_body version n body)
unfolding read_body
read_body-Ends version n body = >>=-Ends (read_data (n, body)) _ λ c1.
    >>=-Ends (read_name c1) _ λ c2. >>=-Ends (read_mime c2) _ λ c3. >>=-Ends (read_pairs c3) _ λ c4.
      >>=-Ends (read_last_modified c4) _ λ c5.
        >>=-Ends (read_ttl c5) _
          λ c6. >>=-Ends (read_footer version c6) _ λ m. verify_checksum-Ends m

-- The checksum does not cover the size field.
resize-IsVerified : (n : Needle) (s : ℕ) → IsVerified n → IsVerified (record n { size = s })
unfolding body_bytes
resize-IsVerified n s h = h

abbrev padded : ℕ → ℕ
padded size = (16 + size + needle_align_padding (16 + size)) % u32

finish-Ends :
    (size : ℕ) (r : Read Needle)
    → Ends r
    → (m : Needle) → (r >>= λ n. ok (record n { size = padded size })) ≡ ok m
    → IsVerified m × (m.size ≡ padded size)
finish-Ends size (ok n) h m e =
    let good = resize-IsVerified n (padded size) (h n refl) in
    let same : record n { size = padded size } ≡ m = cc in
    subst (λ (k : Needle). IsVerified k × (k.size ≡ padded size)) same (good, refl)
finish-Ends size (err x) h m e = cc
finish-Ends size panic h m e = cc

read_sized-Ends :
    (version size : ℕ) (n m : Needle) (input : List ℕ)
    → read_sized version n size input ≡ ok m
    → IsVerified m × (m.size ≡ padded size)
unfolding read_sized
read_sized-Ends version size n m input h =
    finish-Ends size (read_body version n (take size (drop 16 input)))
      (read_body-Ends version n (take size (drop 16 input))) m (ground arith)

-- Whatever the bytes are, a ReadFrom that succeeds on a header with a body returns a needle whose
-- checksum is the one of its cookie, its id and its body, and whose size is the padded size of the
-- record.
pub read_from-verified :
    (version : ℕ) (n m : Needle) (input : List ℕ)
    → 16 ≤ length input
    → 0 < body_length input
    → read_from n input version ≡ ok m
    → (new_crc32 m.cookie m.id (body_bytes m) ≡ m.checksum)
      × (m.size ≡ (16 + body_length input + needle_align_padding (16 + body_length input)) % u32)
unfolding read_from
read_from-verified version n m input lo has_body h =
    read_sized-Ends version (body_length input) (read_header n input) m input (ground arith)
