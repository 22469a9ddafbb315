-- ===== src/Quota.antt =====
-- goblob/quota/quota.go: the quotas of users and buckets, over the key-value store of the filer. An
-- int64 is its 64-bit pattern. The methods for users and those for buckets differ in the key alone,
-- so each pair is one definition with the scope.
pub mod Usage
mod Tests
use go_blob.Base.{
  ℕ, ◌+◌, ◌-◌, ◌%◌, Bool, true, false, not, ◌&&◌, ◌||◌, Option, none, some, List, [], ◌∷◌, ◌==◌,
  leb, if◌then◌else◌, u64,
}
use go_blob.Bytes.{bytes_equal}
use go_blob.Lock.{Kv, kv_set, signed_lt}

pub record Quota : Type 0 where
  pub max_bytes : ℕ
  pub used_bytes : ℕ

-- encoding/json on quotas, which is outside the program; `none` is an error of Unmarshal.
pub record QuotaCodec : Type 0 where
  pub encode_quota : Quota → List ℕ
  pub decode_quota : List ℕ → Option Quota

pub data Scope : Type 0 where
  user bucket : Scope

-- userKey "quota:user:" and bucketKey "quota:bucket:", with the trimmed id.
unfoldable pub quota_key : Scope → List ℕ → List ℕ
quota_key user trimmed = 113 ∷ 117 ∷ 111 ∷ 116 ∷ 97 ∷ 58 ∷ 117 ∷ 115 ∷ 101 ∷ 114 ∷ 58 ∷ trimmed
quota_key bucket trimmed =
    113 ∷ 117 ∷ 111 ∷ 116 ∷ 97 ∷ 58 ∷ 98 ∷ 117 ∷ 99 ∷ 107 ∷ 101 ∷ 116 ∷ 58 ∷ trimmed

-- A negative number becomes 0.
abbrev pub not_negative : ℕ → ℕ
not_negative used = if leb 0x8000000000000000 used then 0 else used

abbrev pub with_used : ℕ → Quota → Quota
with_used used q = record { max_bytes = q.max_bytes; used_bytes = not_negative used }

abbrev pub no_quota : Quota
no_quota = record { max_bytes = 0; used_bytes = 0 }

-- Whether a quota has room for some bytes.
abbrev pub has_room : Quota → ℕ → Bool
has_room q required =
    not (signed_lt 0 q.max_bytes && signed_lt q.max_bytes ((q.used_bytes + required) % u64))

-- How KvGet goes: it answers what is stored, or fails; the flag is whether the text of its error
-- contains "not found", which isNotFound looks for.
pub data GetAnswer : Type 0 where
  answers : GetAnswer
  fails : Bool → GetAnswer

-- How the calls of one method go in the store; `put` is whether KvPut succeeds.
pub record QuotaStore : Type 0 where
  pub get : GetAnswer
  pub put : Bool

-- getQuota on the answer of KvGet: `read` is what it makes of the stored text.
abbrev pub found_by : GetAnswer → Option Quota → Option Quota
found_by answers read = read
found_by (fails true) read = some no_quota
found_by (fails false) read = none

-- `trim` is strings.TrimSpace.
module _ (codec : QuotaCodec) (trim : List ℕ → List ℕ) where
  -- getQuota, behind KvGet; `none` is an error.
  unfoldable pub parse_quota : Option (List ℕ) → Option Quota
  parse_quota none = some no_quota
  parse_quota (some raw) =
      if bytes_equal raw []
      then some no_quota
      else elim (codec.decode_quota raw) [ none ↦ none | some q ↦ some (with_used q.used_bytes q) ]

  unfoldable pub get_quota : QuotaStore → Scope → List ℕ → Kv → Option Quota
  unfolding parse_quota quota_key
  get_quota store scope id kv = found_by store.get (parse_quota (kv (quota_key scope (trim id))))

  -- setQuota, with whether it succeeds.
  unfoldable pub set_quota : QuotaStore → Scope → List ℕ → Quota → Kv → Kv × Bool
  unfolding quota_key
  set_quota store scope id q kv =
      if store.put
      then (
        kv_set (quota_key scope (trim id)) (some (codec.encode_quota (with_used q.used_bytes q)))
            kv,
        true,
      )
      else (kv, false)

  -- AddUserUsage and AddBucketUsage, behind getQuota.
  unfoldable pub add_found : QuotaStore → Scope → List ℕ → ℕ → Option Quota → Kv → Kv × Bool
  unfolding set_quota
  add_found store scope id bytes none kv = (kv, false)
  add_found store scope id bytes (some q) kv =
      set_quota store scope id (with_used ((q.used_bytes + bytes) % u64) q) kv

  unfoldable pub add_usage : QuotaStore → Scope → List ℕ → ℕ → Kv → Kv × Bool
  unfolding add_found get_quota
  add_usage store scope id bytes kv =
      if bytes_equal (trim id) [] || bytes == 0
      then (kv, true)
      else add_found store scope id bytes (get_quota store scope id kv) kv

  -- SubtractUserUsage and SubtractBucketUsage.
  unfoldable pub subtract_usage : QuotaStore → Scope → List ℕ → ℕ → Kv → Kv × Bool
  unfolding add_usage
  subtract_usage store scope id bytes kv = add_usage store scope id ((u64 - bytes) % u64) kv

  -- CheckUserQuota and CheckBucketQuota, behind getQuota; `false` is a QuotaExceededError.
  abbrev pub check_found : ℕ → Option Quota → Bool
  check_found required none = true
  check_found required (some q) = has_room q required

  unfoldable pub check_quota : QuotaStore → Scope → List ℕ → ℕ → Kv → Bool
  unfolding get_quota
  check_quota store scope id required kv =
      if bytes_equal (trim id) [] || not (signed_lt 0 required)
      then true
      else check_found required (get_quota store scope id kv)

-- The calls that change quotas.
pub data QuotaCall : Type 0 where
  set_call : QuotaStore → Scope → List ℕ → Quota → QuotaCall
  add_call : QuotaStore → Scope → List ℕ → ℕ → QuotaCall
  subtract_call : QuotaStore → Scope → List ℕ → ℕ → QuotaCall

unfoldable pub quota_step : QuotaCodec → (List ℕ → List ℕ) → QuotaCall → Kv → Kv
unfolding set_quota add_usage subtract_usage
quota_step codec trim (set_call store scope id q) kv = (set_quota codec trim store scope id q kv).0
quota_step codec trim (add_call store scope id bytes) kv =
    (add_usage codec trim store scope id bytes kv).0
quota_step codec trim (subtract_call store scope id bytes) kv =
    (subtract_usage codec trim store scope id bytes kv).0

unfoldable pub quota_run : QuotaCodec → (List ℕ → List ℕ) → List QuotaCall → Kv → Kv
unfolding quota_step
quota_run codec trim [] kv = kv
quota_run codec trim (c ∷ cs) kv = quota_run codec trim cs (quota_step codec trim c kv)
