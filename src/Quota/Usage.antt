-- ===== src/Quota/Usage.antt =====
-- goblob/quota/quota.go: the quota of a user or a bucket counts the usage that was added to it.
use go_blob.Base.{
  ℕ, ◌+◌, ◌-◌, ◌%◌, ◌≡◌, ◌∙◌, refl, ap, Bool, true, false, not, ◌&&◌, ◌||◌, Option, none, some,
  List, [], ◌∷◌, ◌==◌, if◌then◌else◌, u64, arith,
}
use go_blob.Bytes.{bytes_equal}
use go_blob.Bytes.Laws.{bytes_equal_iff}
use go_blob.Lock.{Kv, signed_lt}
use go_blob.Quota.{
  QuotaStore, GetAnswer, found_by, Quota, QuotaCodec, Scope, user, bucket, quota_key, not_negative,
  with_used, no_quota, has_room, parse_quota, get_quota, set_quota, add_found, add_usage,
  subtract_usage, check_found, check_quota, QuotaCall, set_call, add_call, subtract_call,
  quota_step, quota_run,
}

-- The codec gives back every quota, and writes no empty text.
pub record IsCodec (codec : QuotaCodec) : Type 0 where
  pub sound : (q : Quota) → codec.decode_quota (codec.encode_quota q) ≡ some q
  pub not_empty : (q : Quota) → bytes_equal (codec.encode_quota q) [] ≡ false

abbrev pub same_scope : Scope → Scope → Bool
same_scope user user = true
same_scope user bucket = false
same_scope bucket user = false
same_scope bucket bucket = true

-- A quota with more usage; a quota that cannot be read stays as it was.
abbrev pub added : ℕ → Option Quota → Quota → Quota
added bytes none q = q
added bytes (some read) q = with_used ((read.used_bytes + bytes) % u64) read

-- What a call makes of a quota, told without the keys and texts of the store: it changes the quota
-- of its scope and trimmed id, if the calls of the store that it needs succeed; a KvGet that fails
-- with "not found" makes it start from an empty quota.
abbrev pub used_by : (List ℕ → List ℕ) → QuotaCall → Scope → List ℕ → Quota → Quota
used_by trim (set_call store scope id new) s i q =
    if same_scope scope s && bytes_equal (trim id) (trim i) && store.put
    then with_used new.used_bytes new
    else q
used_by trim (add_call store scope id bytes) s i q =
    if same_scope scope s
      && bytes_equal (trim id) (trim i)
      && store.put
      && not (bytes_equal (trim id) [] || bytes == 0)
    then added bytes (found_by store.get (some q)) q
    else q
used_by trim (subtract_call store scope id bytes) s i q =
    if same_scope scope s
      && bytes_equal (trim id) (trim i)
      && store.put
      && not (bytes_equal (trim id) [] || ((u64 - bytes) % u64) == 0)
    then added ((u64 - bytes) % u64) (found_by store.get (some q)) q
    else q

abbrev pub usage : (List ℕ → List ℕ) → List QuotaCall → Scope → List ℕ → Quota → Quota
usage trim [] s i q = q
usage trim (c ∷ cs) s i q = usage trim cs s i (used_by trim c s i q)

key-equal :
    (a b : Scope) (x y : List ℕ)
    → bytes_equal (quota_key a x) (quota_key b y) ≡ (same_scope a b && bytes_equal x y)
unfolding quota_key bytes_equal
key-equal user user x y = refl
key-equal user bucket x y = refl
key-equal bucket user x y = refl
key-equal bucket bucket x y = refl

not_negative_twice : (n : ℕ) → not_negative (not_negative n) ≡ not_negative n
not_negative_twice n = ground arith

parse-encode :
    (codec : QuotaCodec) (trim : List ℕ → List ℕ) (q : Quota)
    → IsCodec codec
    → parse_quota codec trim (some (codec.encode_quota (with_used q.used_bytes q)))
      ≡ some (with_used q.used_bytes q)
unfolding parse_quota
parse-encode codec trim q h = rw (
  parse_quota,
  h.not_empty (with_used q.used_bytes q),
  h.sound (with_used q.used_bytes q),
  not_negative_twice q.used_bytes,
)

-- The quota that the store holds for an id.
abbrev pub held : QuotaCodec → (List ℕ → List ℕ) → Kv → Scope → List ℕ → Option Quota
held codec trim kv s i = parse_quota codec trim (kv (quota_key s (trim i)))

put_at :
    (codec : QuotaCodec) (trim : List ℕ → List ℕ) (found : Option (List ℕ)) (b : Bool)
    (value : List ℕ) (q old : Quota)
    → parse_quota codec trim (some value) ≡ some q
    → parse_quota codec trim found ≡ some old
    → parse_quota codec trim (if b then some value else found) ≡ some (if b then q else old)
put_at codec trim found true value q old h k = h
put_at codec trim found false value q old h k = k

set-held :
    (codec : QuotaCodec) (trim : List ℕ → List ℕ) (put : Bool) (get : GetAnswer) (scope s : Scope)
    (id i : List ℕ) (q old : Quota) (kv : Kv)
    → IsCodec codec
    → held codec trim kv s i ≡ some old
    → held codec trim (set_quota codec trim (record { get = get; put = put }) scope id q kv).0 s i
      ≡ some (
          if same_scope scope s && bytes_equal (trim id) (trim i) && put
          then with_used q.used_bytes q
          else old)
unfolding set_quota
set-held codec trim true get scope s id i q old kv h k = rw (key-equal scope s (trim id) (trim i)) (
    put_at codec trim (kv (quota_key s (trim i)))
      (same_scope scope s && bytes_equal (trim id) (trim i)) _ _ old (parse-encode codec trim q h) k
    ∙ ap (λ b. some (if b then with_used q.used_bytes q else old))
        (and_true (same_scope scope s) (bytes_equal (trim id) (trim i))))
  where
    and_true : (a b : Bool) → (a && b) ≡ (a && b && true)
    and_true a b = ground arith
set-held codec trim false get scope s id i q old kv h k =
    k
    ∙ ap (λ b. some (if b then with_used q.used_bytes q else old))
        (and_false (same_scope scope s) (bytes_equal (trim id) (trim i)))
  where
    and_false : (a b : Bool) → false ≡ (a && b && false)
    and_false a b = ground arith

-- An update of another quota.
add_found_other :
    (codec : QuotaCodec) (trim : List ℕ → List ℕ) (store : QuotaStore) (scope s : Scope)
    (id i : List ℕ) (bytes : ℕ) (found : Option Quota) (old : Quota) (kv : Kv)
    → IsCodec codec
    → (same_scope scope s && bytes_equal (trim id) (trim i)) ≡ false
    → held codec trim kv s i ≡ some old
    → held codec trim (add_found codec trim store scope id bytes found kv).0 s i ≡ some old
unfolding add_found
add_found_other codec trim store scope s id i bytes none old kv h other k = k
add_found_other codec trim store scope s id i bytes (some q) old kv h other k =
    set-held codec trim store.put store.get scope s id i
      (with_used ((q.used_bytes + bytes) % u64) q) old kv h k
    ∙ ap (λ b. some (if b then with_used (not_negative ((q.used_bytes + bytes) % u64)) q else old))
        (no_and (same_scope scope s) (bytes_equal (trim id) (trim i)) store.put other)
  where
    no_and : (a b c : Bool) → (a && b) ≡ false → (a && b && c) ≡ false
    no_and a b c q = ground arith

-- An update of the quota itself.
add_found_self :
    (codec : QuotaCodec) (trim : List ℕ → List ℕ) (store : QuotaStore) (scope s : Scope)
    (id i : List ℕ) (bytes : ℕ) (found : Option Quota) (old : Quota) (kv : Kv)
    → IsCodec codec
    → (same_scope scope s && bytes_equal (trim id) (trim i)) ≡ true
    → held codec trim kv s i ≡ some old
    → held codec trim (add_found codec trim store scope id bytes found kv).0 s i
      ≡ some (if store.put then added bytes found old else old)
unfolding add_found
add_found_self codec trim store scope s id i bytes none old kv h same k = k ∙ either store.put old
  where
    either : (b : Bool) (x : Quota) → some x ≡ some (if b then x else x)
    either true x = refl
    either false x = refl
add_found_self codec trim store scope s id i bytes (some q) old kv h same k =
    set-held codec trim store.put store.get scope s id i
      (with_used ((q.used_bytes + bytes) % u64) q) old kv h k
    ∙ ap (λ b. some (if b then with_used (not_negative ((q.used_bytes + bytes) % u64)) q else old))
        (yes_and (same_scope scope s) (bytes_equal (trim id) (trim i)) store.put same)
    ∙ ap (λ n. some (if store.put then record { max_bytes = q.max_bytes; used_bytes = n } else old))
        (not_negative_twice ((q.used_bytes + bytes) % u64))
  where
    yes_and : (a b c : Bool) → (a && b) ≡ true → (a && b && c) ≡ c
    yes_and a b c q = ground arith

same_key :
    (scope s : Scope) (x y : List ℕ)
    → (same_scope scope s && bytes_equal x y) ≡ true
    → quota_key scope x ≡ quota_key s y
same_key scope s x y h =
    (bytes_equal_iff (quota_key scope x) (quota_key s y)).0 (key-equal scope s x y ∙ h)

neither : (b : Bool) (x y : Quota) → b ≡ false → some y ≡ some (if b then x else y)
neither true x y h = absurd (ground (arith, h))
neither false x y h = refl

skipped_tests : (same put : Bool) → (same && put && false) ≡ false
skipped_tests same put = ground arith

passed_tests : (put : Bool) → put ≡ (true && put && true)
passed_tests put = ground arith

add-held :
    (codec : QuotaCodec) (trim : List ℕ → List ℕ) (store : QuotaStore) (skip same : Bool)
    (scope s : Scope) (id i : List ℕ) (bytes : ℕ) (old : Quota) (kv : Kv)
    → IsCodec codec
    → (same_scope scope s && bytes_equal (trim id) (trim i)) ≡ same
    → held codec trim kv s i ≡ some old
    → parse_quota codec trim (
        (if skip
            then (kv, true)
            else add_found codec trim store scope id bytes
                (get_quota codec trim store scope id kv)
                kv).0
          (quota_key s (trim i)))
      ≡ some (
          if same && store.put && not skip
          then added bytes (found_by store.get (some old)) old
          else old)
unfolding get_quota
add-held codec trim store true same scope s id i bytes old kv h q k =
    k ∙ neither (same && store.put && false) _ old (skipped_tests same store.put)
add-held codec trim store false false scope s id i bytes old kv h q k =
    add_found_other codec trim store scope s id i bytes _ old kv h q k
add-held codec trim store false true scope s id i bytes old kv h q k =
    ap
      (λ read.
        held codec trim (add_found codec trim store scope id bytes (found_by store.get read) kv).0 s
          i)
      (ap (λ key. parse_quota codec trim (kv key)) (same_key scope s (trim id) (trim i) q) ∙ k)
    ∙ add_found_self codec trim store scope s id i bytes (found_by store.get (some old)) old kv h q
        k
    ∙ ap (λ b. some (if b then added bytes (found_by store.get (some old)) old else old))
        (passed_tests store.put)

-- What a check makes of a quota that was read, or was not.
abbrev pub allows : Option Quota → ℕ → Bool
allows none required = true
allows (some q) required = has_room q required

checked :
    (codec : QuotaCodec) (trim : List ℕ → List ℕ) (blank small : Bool) (read : Option Quota)
    (required : ℕ)
    → (if blank || small then true else check_found codec trim required read)
      ≡ (blank || small || allows read required)
checked codec trim true small read required = refl
checked codec trim false true read required = refl
checked codec trim false false none required = refl
checked codec trim false false (some q) required = refl

step-held :
    (codec : QuotaCodec) (trim : List ℕ → List ℕ) (c : QuotaCall) (s : Scope) (i : List ℕ)
    (old : Quota) (kv : Kv)
    → IsCodec codec
    → held codec trim kv s i ≡ some old
    → held codec trim (quota_step codec trim c kv) s i ≡ some (used_by trim c s i old)
unfolding quota_step add_usage subtract_usage
step-held codec trim (set_call store scope id q) s i old kv h k =
    set-held codec trim store.put store.get scope s id i q old kv h k
step-held codec trim (add_call store scope id bytes) s i old kv h k =
    add-held codec trim store (bytes_equal (trim id) [] || bytes == 0) _ scope s id i bytes old kv h
      refl k
step-held codec trim (subtract_call store scope id bytes) s i old kv h k =
    add-held codec trim store (bytes_equal (trim id) [] || ((u64 - bytes) % u64) == 0) _ scope s id
      i ((u64 - bytes) % u64) old kv h refl k

run-held :
    (codec : QuotaCodec) (trim : List ℕ → List ℕ) (cs : List QuotaCall) (s : Scope) (i : List ℕ)
    (old : Quota) (kv : Kv)
    → IsCodec codec
    → held codec trim kv s i ≡ some old
    → held codec trim (quota_run codec trim cs kv) s i ≡ some (usage trim cs s i old)
unfolding quota_run
run-held codec trim [] s i old kv h k = k
run-held codec trim (c ∷ cs) s i old kv h k =
    run-held codec trim cs s i _ (quota_step codec trim c kv) h
      (step-held codec trim c s i old kv h k)

-- A store without quotas.
abbrev pub no_entries : Kv
no_entries key = none

none-held :
    (codec : QuotaCodec) (trim : List ℕ → List ℕ) (s : Scope) (i : List ℕ)
    → held codec trim no_entries s i ≡ some no_quota
unfolding parse_quota
none-held codec trim s i = refl

-- Provided the codec gives back every quota and writes no empty text: after any calls on an empty
-- store, some of which may have failed, the quota that is read for a user or a bucket is what the
-- successful calls for that scope and that trimmed id make of an empty one, a negative usage
-- counting as 0, and a call whose KvGet fails with a text that contains "not found" starting from
-- an empty quota. A KvGet that fails so reads an empty quota, and another one that fails reads
-- none. A check of more than 0 bytes for an id that is not blank passes exactly if the quota that
-- it reads has room, or it reads none.
pub check_quota-quota_run :
    (codec : QuotaCodec) (trim : List ℕ → List ℕ) (cs : List QuotaCall) (store : QuotaStore)
    (s : Scope) (i : List ℕ) (required : ℕ)
    → IsCodec codec
    → (get_quota codec trim store s i (quota_run codec trim cs no_entries)
        ≡ found_by store.get (some (usage trim cs s i no_quota)))
      × (check_quota codec trim store s i required (quota_run codec trim cs no_entries) ≡ (
          bytes_equal (trim i) []
          || not (signed_lt 0 required)
          || allows (found_by store.get (some (usage trim cs s i no_quota))) required))
unfolding get_quota check_quota
check_quota-quota_run codec trim cs store s i required h =
    let run = run-held codec trim cs s i no_quota no_entries h (none-held codec trim s i) in
    let got = ap (found_by store.get) run in
    (
      got,
      ap
            (λ found.
              if bytes_equal (trim i) [] || not (signed_lt 0 required)
              then true
              else check_found codec trim required found)
            got
          ∙ checked codec trim (bytes_equal (trim i) []) (not (signed_lt 0 required))
              (found_by store.get (some (usage trim cs s i no_quota))) required,
    )
