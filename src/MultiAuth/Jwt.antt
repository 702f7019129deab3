-- ===== src/MultiAuth/Jwt.antt =====
-- The JWT provider. The decoding of base64 and JSON, HMAC-SHA256 and the provider's hash of a token
-- are parameters, since they are the standard library's, and so is the instant of a time.Unix.
-- Seconds are counted from the Unix epoch, which lies `unix_epoch` seconds after the zero time.Time.
use advanced_golang_tutorial.Prelude.{
  ℕ, ◌+◌, ◌-◌, ◌*◌, ◌/◌, Bool, true, false, not, List, [], ◌∷◌, ◌++◌, Option, none, some,
  if◌then◌else◌, ltb, ◌==◌, ◌&&◌, length, add_i64, Text, same_text, split_at, ℤ, pos, pos_part,
  ltb_ℤ, ◌⊎◌, inl, inr,
}
pub mod Checks
pub mod Accepted
use advanced_golang_tutorial.MultiAuth.Selection.{AuthResult}
use advanced_golang_tutorial.MultiAuth.Stats.{ProviderStats, record_stats}

pub record JwtHeader : Type 0 where
  pub algorithm : Text
  pub header_type : Text

pub record JwtPayload : Type 0 where
  pub issuer : Text
  pub subject : Text
  pub audience : Text
  pub expires_at : ℤ
  pub not_before : ℤ
  pub issued_at : ℤ
  pub jwt_id : Text
  pub username : Text
  pub email : Text
  pub roles : List Text

pub record JwtProvider : Type 0 where
  pub name : Text
  pub secret_key : Text
  pub issuer : Text
  pub audience : Text
  pub stats : ProviderStats

-- `has_claims` is the second json.Unmarshal of the payload, into a map; `time_unix` is the instant
-- that time.Unix makes of an int64 of seconds, which wraps around far from the epoch.
pub record Packages : Type 0 where
  pub base64_decode : Text → Option Text
  pub unmarshal_header : Text → Option JwtHeader
  pub unmarshal_payload : Text → Option JwtPayload
  pub has_claims : Text → Bool
  pub hmac_sha256 : Text → Text → Text
  pub hash_token : Text → Text
  pub time_unix : ℤ → ℕ

pub data JwtError : Type 0 where
  invalid_format : JwtError
  invalid_header_encoding : JwtError
  invalid_header_json : JwtError
  unsupported_algorithm : JwtError
  invalid_payload_encoding : JwtError
  invalid_payload_json : JwtError
  invalid_signature_encoding : JwtError
  invalid_signature : JwtError
  token_expired : JwtError
  invalid_issuer : JwtError
  invalid_audience : JwtError

abbrev pub dot : ℕ
dot = 46

abbrev pub hs256 : Text
hs256 = 72 ∷ 83 ∷ 50 ∷ 53 ∷ 54 ∷ []

abbrev pub unix_epoch : ℕ
unix_epoch = 62135596800

abbrev pub second : ℕ
second = 1000000000

abbrev pub to_unix : ℕ → ℕ
to_unix now = now / second - unix_epoch

unfoldable pub generate_signature : Packages → JwtProvider → Text → Text
generate_signature p j message = p.hmac_sha256 j.secret_key message

unfoldable pub decode_header : Packages → Text → JwtError ⊎ JwtHeader
decode_header p part = elim (p.base64_decode part) [
  | none ↦ inl invalid_header_encoding
  | some bytes ↦ elim (p.unmarshal_header bytes) [ none ↦ inl invalid_header_json | some h ↦ inr h ]
]

unfoldable pub decode_payload : Packages → Text → JwtError ⊎ JwtPayload
decode_payload p part = elim (p.base64_decode part) [
  | none ↦ inl invalid_payload_encoding
  | some bytes ↦ elim (p.unmarshal_payload bytes) [
    | none ↦ inl invalid_payload_json
    | some d ↦ if p.has_claims bytes then inr d else inl invalid_payload_json
  ]
]

unfoldable pub verify_signature : Packages → JwtProvider → Text → Text → Text → Option JwtError
unfolding generate_signature same_text
verify_signature p j head body part = elim (p.base64_decode part) [
  | none ↦ some invalid_signature_encoding
  | some actual ↦
      if same_text (generate_signature p j (head ++ dot ∷ body)) actual
      then none
      else some invalid_signature
]

unfoldable pub is_expired : ℕ → JwtPayload → Bool
is_expired now d =
    if ltb_ℤ (pos 0) d.expires_at then ltb (pos_part d.expires_at) (to_unix now) else false

-- A requirement that is left empty is met by anything.
unfoldable pub differs : Text → Text → Bool
unfolding same_text
differs required actual = if length required == 0 then false else not (same_text actual required)

unfoldable pub verify_claims : JwtProvider → ℕ → JwtPayload → Option JwtError
unfolding is_expired differs
verify_claims j now d =
    if is_expired now d
    then some token_expired
    else if differs j.issuer d.issuer
    then some invalid_issuer
    else if differs j.audience d.audience
    then some invalid_audience
    else none

unfoldable pub result_of : Packages → JwtProvider → Text → ℕ → JwtPayload → AuthResult
result_of p j token now d = record {
  success = true;
  user_id = d.subject;
  username = d.username;
  email = d.email;
  roles = d.roles;
  provider = j.name;
  expires_at = if ltb_ℤ (pos 0) d.expires_at then p.time_unix d.expires_at else now + 3600 * second;
  issued_at = p.time_unix d.issued_at;
  token_hash = p.hash_token token;
  response_time = 0;
}

unfoldable pub authenticate_parts :
    Packages → JwtProvider → ℕ → Text → List Text → JwtError ⊎ AuthResult
unfolding decode_header decode_payload verify_signature verify_claims result_of same_text
authenticate_parts p j now token (head ∷ body ∷ signature ∷ []) = elim (decode_header p head) [
  | inl e ↦ inl e
  | inr h ↦
      let checked : JwtError ⊎ AuthResult = elim (decode_payload p body) [
        | inl e ↦ inl e
        | inr d ↦ elim (verify_signature p j head body signature) [
          | some e ↦ inl e
          | none ↦ elim (verify_claims j now d) [
            | some e ↦ inl e
            | none ↦ inr (result_of p j token now d)
          ]
        ]
      ] in
      if same_text h.algorithm hs256 then checked else inl unsupported_algorithm
]
authenticate_parts p j now token parts = inl invalid_format

unfoldable pub authenticate :
    Packages → ℕ → ℕ → Text → JwtProvider → (JwtError ⊎ AuthResult) × JwtProvider
unfolding authenticate_parts record_stats split_at
authenticate p now latency token j =
    let outcome = authenticate_parts p j now token (split_at dot token) in
    let failed : Bool = elim outcome [ inl e ↦ true | inr r ↦ false ] in
    (outcome, record j { stats = record_stats latency failed j.stats })
