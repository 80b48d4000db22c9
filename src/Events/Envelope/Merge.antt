-- ===== src/Events/Envelope/Merge.antt =====
-- Which value the merged data has under a key.
use ushnotice.Common.{
  ◌≡◌, refl, ◌∙◌, subst, String, ◌==◌, eq_iff, eq_refl, ◌&&◌, not, Bool, true, false, Bool-cases,
  inl, inr, any, arith, if◌then◌else◌,
}
use ushnotice.Json.{Json, null, Fields, end, field, get, has_key, put}
use ushnotice.Events.Envelope.{envelope_keys, merge_data}

abbrev is_envelope_key : String → Bool
is_envelope_key k = any (λ e. e == k) envelope_keys

get-put_same : (d : Fields) (j : String) (x : Json) → get (put d j x) j ≡ x
unfolding get put
get-put_same end j x = ground (arith, eq_refl j)
get-put_same (field i v d) j x = ground (arith, eq_refl j, eq_iff i j, get-put_same d j x)

get-put_other :
    (d : Fields) (j k : String) (x : Json) → j == k ≡ false → get (put d j x) k ≡ get d k
unfolding get put
get-put_other end j k x h = ground arith
get-put_other (field i v d) j k x h =
    ground (arith, eq_iff i j, eq_iff i k, eq_iff j k, get-put_other d j k x h)

has_key-put :
    (d : Fields) (j k : String) (x : Json)
    → has_key (put d j x) k ≡ (if j == k then true else has_key d k)
unfolding has_key put
has_key-put end j k x = ground arith
has_key-put (field i v d) j k x =
    ground (arith, eq_iff i j, eq_iff i k, eq_iff j k, has_key-put d j k x)

get_missing : (d : Fields) (k : String) → has_key d k ≡ false → get d k ≡ null
unfolding get has_key
get_missing end k h = refl
get_missing (field i v d) k h = ground (arith, get_missing d k)

-- the value that the merged data is to have under a key
abbrev pub merged_value : Fields → Fields → String → Json
merged_value v raw_data k =
    if has_key raw_data k then get raw_data k else if is_envelope_key k then null else get v k

merged_value-end : (raw_data : Fields) (k : String) → get raw_data k ≡ merged_value end raw_data k
unfolding get
merged_value-end raw_data k = elim (Bool-cases (has_key raw_data k)) [
  | inl hit ↦ rw hit
  | inr miss ↦ rw miss (get_missing raw_data k miss ∙ ground arith)
]

-- A field that is taken over.
merged_value-put :
    (j : String) (x : Json) (rest raw_data : Fields) (k : String)
    → is_envelope_key j ≡ false
    → has_key raw_data j ≡ false
    → merged_value rest (put raw_data j x) k ≡ merged_value (field j x rest) raw_data k
unfolding get
merged_value-put j x rest raw_data k free new = elim (Bool-cases (j == k)) [
  | inl same ↦
      subst (λ i. merged_value rest (put raw_data j x) i ≡ merged_value (field j x rest) raw_data i)
        ((eq_iff j k).0 same)
        (rw (has_key-put raw_data j j x, get-put_same raw_data j x, eq_refl j, free, new))
  | inr differ ↦ rw (has_key-put raw_data j k x, get-put_other raw_data j k x differ, differ)
]

-- A field that is not.
merged_value-skip :
    (j : String) (x : Json) (rest raw_data : Fields) (k : String)
    → (not (is_envelope_key j) && not (has_key raw_data j)) ≡ false
    → merged_value rest raw_data k ≡ merged_value (field j x rest) raw_data k
unfolding get
merged_value-skip j x rest raw_data k skip = elim (Bool-cases (j == k)) [
  | inl same ↦
      subst (λ i. merged_value rest raw_data i ≡ merged_value (field j x rest) raw_data i)
        ((eq_iff j k).0 same) (ground arith)
  | inr differ ↦ rw differ
]

and_not : {a b : Bool} → (not a && not b) ≡ true → (a ≡ false) × (b ≡ false)
and_not {a} {b} h = (ground arith, ground arith)

-- Under each key the merged data has the value that the event's data had, if it had one; otherwise
-- none if the key is one of the envelope's, and otherwise the value of the root.
pub get-merge_data :
    (v raw_data : Fields) (k : String) → get (merge_data v raw_data) k ≡ merged_value v raw_data k
unfolding merge_data
get-merge_data end raw_data k = merged_value-end raw_data k
get-merge_data (field j x rest) raw_data k =
    elim (Bool-cases (not (is_envelope_key j) && not (has_key raw_data j))) [
      | inl taken ↦ rw taken (
          get-merge_data rest (put raw_data j x) k
          ∙ merged_value-put j x rest raw_data k (and_not taken).0 (and_not taken).1)
      | inr skip ↦
          rw skip (get-merge_data rest raw_data k ∙ merged_value-skip j x rest raw_data k skip)
    ]
