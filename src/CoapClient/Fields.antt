-- ===== src/CoapClient/Fields.antt =====
-- The setters of the header change their own field only.
use gateway_project.Base.{
  ℕ, ◌+◌, ◌*◌, ◌/◌, ◌%◌, ◌≤◌, ◌<◌, ◌≡◌, List, [], ◌∷◌, All, ltb-false, Run, ok, ◌>>=◌, deref, arith,
}
use gateway_project.Base.Bits.{and_03, and_0f, or_type, or_version}
use gateway_project.CoapClient.Pdu.{ClientError, Pdu}
use gateway_project.CoapClient.Getters.{get_version, get_type, get_tkl, get_code, get_mid}
use gateway_project.CoapClient.Setters.{set_version, set_type, set_code, set_mid}

pub record Fields : Type 0 where
  pub version : ℕ
  pub type : ℕ
  pub tkl : ℕ
  pub code : ℕ
  pub mid : ℕ

-- What the getters of the header read.
abbrev pub read_fields : Pdu → Run ClientError Fields
read_fields pdu = do
  version ← get_version pdu
  type ← get_type pdu
  tkl ← get_tkl pdu
  code ← get_code pdu
  mid ← get_mid pdu
  ok (record { version = version; type = type; tkl = tkl; code = code; mid = mid })

pub data Setting : Type 0 where
  version_is : ℕ → Setting
  type_is : ℕ → Setting
  code_is : ℕ → Setting
  mid_is : ℕ → Setting

abbrev pub set_field : Setting → Pdu → Run ClientError Pdu
set_field (version_is v) pdu = set_version pdu v
set_field (type_is t) pdu = set_type pdu t
set_field (code_is c) pdu = set_code pdu c
set_field (mid_is m) pdu = set_mid pdu m

abbrev pub update : Setting → Fields → Fields
update (version_is v) f = record {
  version = v;
  type = f.type;
  tkl = f.tkl;
  code = f.code;
  mid = f.mid;
}
update (type_is t) f = record {
  version = f.version;
  type = t;
  tkl = f.tkl;
  code = f.code;
  mid = f.mid;
}
update (code_is c) f = record {
  version = f.version;
  type = f.type;
  tkl = f.tkl;
  code = c;
  mid = f.mid;
}
update (mid_is m) f = record {
  version = f.version;
  type = f.type;
  tkl = f.tkl;
  code = f.code;
  mid = m;
}

-- The value fits into its field.
abbrev pub IsSetting : Setting → Type 0
IsSetting (version_is v) = v < 4
IsSetting (type_is t) = t < 4
IsSetting (code_is c) = c < 256
IsSetting (mid_is m) = m < 65536

version_lem :
    (v n max : ℕ) (buf : List ℕ)
    → v < 4
    → All (λ b. b < 256) buf
    → 4 ≤ max
    → (set_version (record { buf = buf; len = n; max = max }) v >>= read_fields) ≡ (
        read_fields (record { buf = buf; len = n; max = max }) >>= λ f.
        ok (update (version_is v) f))
unfolding get_version get_type get_tkl get_code get_mid deref set_version
version_lem v n max [] h ps w = rw (ltb-false max 1 (omega (arith, w)))
version_lem v n max (b ∷ []) h ps w = rw (ltb-false max 1 (omega (arith, w)))
version_lem v n max (b ∷ c ∷ []) h ps w = rw (ltb-false max 1 (omega (arith, w)))
version_lem v n max (b ∷ c ∷ x ∷ []) h ps w = rw (ltb-false max 1 (omega (arith, w)))
version_lem v n max (b ∷ c ∷ x ∷ y ∷ rest) h (pb, ps) w =
    let n' = v * 64 + b % 64 in
    let small : n' % 256 ≡ n' = omega (arith, h) in
    let e : n' / 64 ≡ v = omega (arith, h) in
    let e' : n' / 16 % 4 ≡ b / 16 % 4 = omega (arith, h) in
    let e'' : n' % 16 ≡ b % 16 = omega (arith, h) in
    rw (
      ltb-false max 1 (omega (arith, w)),
      or_version b v pb h,
      small,
      and_03 (n' / 16) (omega (arith, h)),
      and_0f n' (omega (arith, h)),
      and_03 (b / 16) (omega (arith, pb)),
      and_0f b pb,
      e,
      e',
      e'',
    )

type_lem :
    (v n max : ℕ) (buf : List ℕ)
    → v < 4
    → All (λ b. b < 256) buf
    → 4 ≤ max
    → (set_type (record { buf = buf; len = n; max = max }) v >>= read_fields)
      ≡ (read_fields (record { buf = buf; len = n; max = max }) >>= λ f. ok (update (type_is v) f))
unfolding get_version get_type get_tkl get_code get_mid deref set_type
type_lem v n max [] h ps w = rw (ltb-false max 1 (omega (arith, w)))
type_lem v n max (b ∷ []) h ps w = rw (ltb-false max 1 (omega (arith, w)))
type_lem v n max (b ∷ c ∷ []) h ps w = rw (ltb-false max 1 (omega (arith, w)))
type_lem v n max (b ∷ c ∷ x ∷ []) h ps w = rw (ltb-false max 1 (omega (arith, w)))
type_lem v n max (b ∷ c ∷ x ∷ y ∷ rest) h (pb, ps) w =
    let n' = b / 64 * 64 + v * 16 + b % 16 in
    let small : n' % 256 ≡ n' = omega (arith, h, pb) in
    let e : n' / 64 ≡ b / 64 = omega (arith, h, pb) in
    let e' : n' / 16 % 4 ≡ v = omega (arith, h, pb) in
    let e'' : n' % 16 ≡ b % 16 = omega (arith, h, pb) in
    rw (
      ltb-false max 1 (omega (arith, w)),
      or_type b v pb h,
      small,
      and_03 (n' / 16) (omega (arith, h, pb)),
      and_0f n' (omega (arith, h, pb)),
      and_0f b pb,
      e,
      e',
      e'',
    )

code_lem :
    (v n max : ℕ) (buf : List ℕ)
    → v < 256
    → 4 ≤ max
    → (set_code (record { buf = buf; len = n; max = max }) v >>= read_fields)
      ≡ (read_fields (record { buf = buf; len = n; max = max }) >>= λ f. ok (update (code_is v) f))
unfolding get_version get_type get_tkl get_code get_mid deref set_code
code_lem v n max [] h w = rw (ltb-false max 2 (omega (arith, w)))
code_lem v n max (b ∷ []) h w = rw (ltb-false max 2 (omega (arith, w)))
code_lem v n max (b ∷ c ∷ []) h w = rw (ltb-false max 2 (omega (arith, w)))
code_lem v n max (b ∷ c ∷ x ∷ []) h w = rw (ltb-false max 2 (omega (arith, w)))
code_lem v n max (b ∷ c ∷ x ∷ y ∷ rest) h w =
    let small : v % 256 ≡ v = omega (arith, h) in rw (ltb-false max 2 (omega (arith, w)), small)

mid_lem :
    (v n max : ℕ) (buf : List ℕ)
    → v < 65536
    → 4 ≤ max
    → (set_mid (record { buf = buf; len = n; max = max }) v >>= read_fields)
      ≡ (read_fields (record { buf = buf; len = n; max = max }) >>= λ f. ok (update (mid_is v) f))
unfolding get_version get_type get_tkl get_code get_mid deref set_mid
mid_lem v n max [] h w = rw (ltb-false max 4 (omega (arith, w)))
mid_lem v n max (b ∷ []) h w = rw (ltb-false max 4 (omega (arith, w)))
mid_lem v n max (b ∷ c ∷ []) h w = rw (ltb-false max 4 (omega (arith, w)))
mid_lem v n max (b ∷ c ∷ x ∷ []) h w = rw (ltb-false max 4 (omega (arith, w)))
mid_lem v n max (b ∷ c ∷ x ∷ y ∷ rest) h w =
    let whole : v / 256 % 256 * 256 + v % 256 ≡ v = omega (arith, h) in
    rw (ltb-false max 4 (omega (arith, w)), whole)

-- On a buffer of bytes whose size is given as at least 4, setting the version, the type, the code or
-- the message id to a value that fits into the field changes that field, as the getters read it, and
-- no other field of the header; where the buffer is shorter than a header, both sides fault.
pub set_field-read_fields :
    (s : Setting) (pdu : Pdu)
    → IsSetting s
    → All (λ b. b < 256) pdu.buf
    → 4 ≤ pdu.max
    → (set_field s pdu >>= read_fields) ≡ (read_fields pdu >>= λ f. ok (update s f))
set_field-read_fields (version_is v) pdu h ps w = version_lem v pdu.len pdu.max pdu.buf h ps w
set_field-read_fields (type_is t) pdu h ps w = type_lem t pdu.len pdu.max pdu.buf h ps w
set_field-read_fields (code_is c) pdu h ps w = code_lem c pdu.len pdu.max pdu.buf h w
set_field-read_fields (mid_is m) pdu h ps w = mid_lem m pdu.len pdu.max pdu.buf h w
