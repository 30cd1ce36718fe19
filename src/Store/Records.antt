-- ===== src/Store/Records.antt =====
-- The abstract view of the database of pkg/store/database.go: two finite maps and a counter.
use nydus_snapshotter.Base.{
  ℕ, ◌==◌, ◌≡◌, ap, ◌∙◌, ◌⊎◌, inl, inr, String, Option, none, some, arith, Error, Result, ok, err,
  if◌then◌else◌, ◌>>=◌, Result-cases, Option-cases,
}
use mathlib.Core.Path.{fun_ext}
use nydus_snapshotter.Daemon.{Rafs, ConfigState}
use nydus_snapshotter.Store.{Bolt, Json, get_object}

pub record View : Type 0 where
  pub daemons : String → Option ConfigState
  pub instances : String → Option Rafs
  pub sequence : ℕ

abbrev pub at_key {ℓ} : {A : Type ℓ} → String → A → (String → A) → String → A
at_key k a f j = if k == j then a else f j

abbrev pub read : {A : Type 0} → Result A → Option A
read (ok a) = some a
read (err e) = none

-- The operation succeeds with the given effect, or fails and changes nothing.
abbrev pub Effect : {S : Type 0} → (S → View) → S → View → S × Result (Unit {0}) → Type 0
Effect view s after (s', r) =
    ((r ≡ ok tt) × (view s' ≡ after)) ⊎ ((e : Error) × (r ≡ err e) × (s' ≡ s))

module _ {Bucket Bytes A : Type 0} (bolt : Bolt Bucket Bytes) (json : Json A Bytes) where
  unfoldable pub record_at : Bucket → String → Option A
  record_at b k = read (get_object bolt json b k)

  decoded : Option Bytes → Option A
  decoded none = none
  decoded (some v) = read (json.unmarshal v)

  record_at-get : (b : Bucket) (k : String) → record_at b k ≡ decoded (bolt.get b k)
  unfolding record_at get_object decoded
  record_at-get b k = ground arith

  decoded-marshal : (a : A) (v : Bytes) → json.marshal a ≡ ok v → decoded (some v) ≡ some a
  unfolding decoded
  decoded-marshal a v e = rw (json.unmarshal-marshal a v e)

  -- A put of an encoded record is a write of that record, and of nothing else.
  pub put-record_at :
      (b b' : Bucket) (k : String) (a : A)
      → (json.marshal a >>= bolt.put b k) ≡ ok b'
      → record_at b' ≡ at_key k (some a) (record_at b)
  put-record_at b b' k a h = elim (Result-cases (json.marshal a)) [
    | inr (e, m) ↦ ground arith
    | inl (v, m) ↦
        let put : bolt.put b k v ≡ ok b' = rw m at h in
        fun_ext (λ j.
          record_at-get b' j
          ∙ ground (arith, bolt.get-put b b' k v put j, decoded-marshal a v m, record_at-get b j))
  ]

  pub delete-record_at :
      (b b' : Bucket) (k : String)
      → bolt.delete b k ≡ ok b'
      → record_at b' ≡ at_key k none (record_at b)
  unfolding decoded
  delete-record_at b b' k h =
      fun_ext
        (λ j. record_at-get b' j ∙ ground (arith, bolt.get-delete b b' k h j, record_at-get b j))

  pub record_at-some :
      (b : Bucket) (k : String) (a : A)
      → record_at b k ≡ some a
      → (get_object bolt json b k ≡ ok a) × ((v : Bytes) × (bolt.get b k ≡ some v))
  unfolding record_at get_object
  record_at-some b k a h = elim (Option-cases (bolt.get b k)) [
    | inl e ↦ ground arith
    | inr (v, e) ↦ (ground arith, (v, e))
  ]

  pub record_at-none :
      (b : Bucket) (k : String)
      → record_at b k ≡ none
      → (e : Error) × (get_object bolt json b k ≡ err e)
  unfolding record_at
  record_at-none b k h = elim (Result-cases (get_object bolt json b k)) [
    | inl (a, e) ↦ absurd (ground arith)
    | inr (x, e) ↦ (x, e)
  ]

  pub record_at-same :
      (b b' : Bucket) → ((j : String) → bolt.get b' j ≡ bolt.get b j) → record_at b' ≡ record_at b
  record_at-same b b' same =
      fun_ext (λ j. ground (arith, record_at-get b' j, record_at-get b j, same j))

  pub record_at_absent : (b : Bucket) (k : String) → bolt.get b k ≡ none → record_at b k ≡ none
  unfolding decoded
  record_at_absent b k e = record_at-get b k ∙ ap decoded e
