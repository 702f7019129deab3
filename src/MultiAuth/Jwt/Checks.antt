-- ===== src/MultiAuth/Jwt/Checks.antt =====
-- What each check of the JWT provider lets through.
use advanced_golang_tutorial.Prelude.{
  ℕ, ◌≡◌, ◌↔◌, sym, ap, ◌∙◌, true, false, [], ◌∷◌, ◌++◌, none, some, arith, if◌then◌else◌, ltb,
  Bool-cases, Option-cases, List-cases, Text, same_text, same_text_refl, same_text-eq, ℤ, pos,
  negsuc, pos_part, ltb_ℤ, ◌≤ℤ◌, ◌⊎◌, inl, inr,
}
use advanced_golang_tutorial.MultiAuth.Jwt.{
  Packages, JwtProvider, JwtHeader, JwtPayload, dot, to_unix, generate_signature, decode_header,
  decode_payload, verify_signature, is_expired, differs, verify_claims,
}

pub record IsHeader (p : Packages) (part : Text) (h : JwtHeader) : Type 0 where
  pub bytes : Text
  pub decoded : p.base64_decode part ≡ some bytes
  pub parsed : p.unmarshal_header bytes ≡ some h

pub record IsPayload (p : Packages) (part : Text) (d : JwtPayload) : Type 0 where
  pub bytes : Text
  pub decoded : p.base64_decode part ≡ some bytes
  pub parsed : p.unmarshal_payload bytes ≡ some d
  pub claims : p.has_claims bytes ≡ true

-- What is demanded of a payload at the instant `now`.
pub record MeetsClaims (j : JwtProvider) (now : ℕ) (d : JwtPayload) : Type 0 where
  pub unexpired : (d.expires_at ≤ℤ pos 0) ⊎ (pos (to_unix now) ≤ℤ d.expires_at)
  pub issued : (j.issuer ≡ []) ⊎ (d.issuer ≡ j.issuer)
  pub meant : (j.audience ≡ []) ⊎ (d.audience ≡ j.audience)

pub decode_header-IsHeader :
    (p : Packages) (part : Text) (h : JwtHeader) → decode_header p part ≡ inr h ↔ IsHeader p part h
unfolding decode_header
decode_header-IsHeader p part h = (
  λ e. elim (Option-cases (p.base64_decode part)) [
    | inl broken ↦ ground arith
    | inr (bytes, decoded) ↦ elim (Option-cases (p.unmarshal_header bytes)) [
      | inl broken ↦ ground arith
      | inr (h', parsed) ↦
          let same : h' ≡ h = ground arith in
          record { bytes = bytes; decoded = decoded; parsed = parsed ∙ ap some same }
    ]
  ],
  λ i. let decoded = i.decoded in let parsed = i.parsed in ground arith,
)

pub decode_payload-IsPayload :
    (p : Packages) (part : Text) (d : JwtPayload)
    → decode_payload p part ≡ inr d ↔ IsPayload p part d
unfolding decode_payload
decode_payload-IsPayload p part d = (
  λ e. elim (Option-cases (p.base64_decode part)) [
    | inl broken ↦ ground arith
    | inr (bytes, decoded) ↦ elim (Option-cases (p.unmarshal_payload bytes)) [
      | inl broken ↦ ground arith
      | inr (d', parsed) ↦ elim (Bool-cases (p.has_claims bytes)) [
        | inr none_there ↦ ground arith
        | inl claims ↦
            let same : d' ≡ d = ground arith in
            record {
              bytes = bytes;
              decoded = decoded;
              parsed = parsed ∙ ap some same;
              claims = claims;
            }
      ]
    ]
  ],
  λ i. let decoded = i.decoded in let parsed = i.parsed in let claims = i.claims in ground arith,
)

pub verify_signature_lem :
    (p : Packages) (j : JwtProvider) (head body part : Text)
    → (verify_signature p j head body part ≡ none)
      ↔ (p.base64_decode part ≡ some (p.hmac_sha256 j.secret_key (head ++ dot ∷ body)))
unfolding verify_signature generate_signature
verify_signature_lem p j head body part =
    let expected = p.hmac_sha256 j.secret_key (head ++ dot ∷ body) in
    (
      λ e. elim (Option-cases (p.base64_decode part)) [
        | inl broken ↦ ground arith
        | inr (actual, decoded) ↦
            let same : same_text expected actual ≡ true = ground arith in
            decoded ∙ ap some (sym (same_text-eq expected actual same))
      ],
      λ decoded. let same = same_text_refl expected in ground arith,
    )

differs_lem :
    (required actual : Text)
    → (differs required actual ≡ false) ↔ ((required ≡ []) ⊎ (actual ≡ required))
unfolding differs
differs_lem required actual = (
  λ e. elim (List-cases required) [
    | inl unset ↦ inl unset
    | inr (c, (cs, set)) ↦
        let same : same_text actual required ≡ true = ground arith in
        inr (same_text-eq actual required same)
  ],
  λ either. elim either [
    | inl unset ↦ ground arith
    | inr same ↦ let here = same_text_refl required in ground arith
  ],
)

late_lem :
    (n : ℕ) (z : ℤ)
    → ((if ltb_ℤ (pos 0) z then ltb (pos_part z) n else false) ≡ false)
      ↔ ((z ≤ℤ pos 0) ⊎ (pos n ≤ℤ z))
late_lem n (pos m) = (
  λ e. elim (Bool-cases (ltb 0 m)) [
    | inl ends ↦ inr (ground arith)
    | inr endless ↦ inl (ground arith)
  ],
  λ either. elim either [ inl endless ↦ ground arith | inr in_time ↦ ground arith ],
)
late_lem n (negsuc m) = (λ e. inl (omega arith), λ either. ground arith)

is_expired_lem :
    (now : ℕ) (d : JwtPayload)
    → (is_expired now d ≡ false) ↔ ((d.expires_at ≤ℤ pos 0) ⊎ (pos (to_unix now) ≤ℤ d.expires_at))
unfolding is_expired
is_expired_lem now d = late_lem (to_unix now) d.expires_at

pub verify_claims-MeetsClaims :
    (j : JwtProvider) (now : ℕ) (d : JwtPayload)
    → (verify_claims j now d ≡ none) ↔ MeetsClaims j now d
unfolding verify_claims
verify_claims-MeetsClaims j now d = (
  λ e. record {
    unexpired = (is_expired_lem now d).0 (ground arith);
    issued = (differs_lem j.issuer d.issuer).0 (ground arith);
    meant = (differs_lem j.audience d.audience).0 (ground arith);
  },
  λ m.
      let unexpired : is_expired now d ≡ false = (is_expired_lem now d).1 m.unexpired in
      let issued : differs j.issuer d.issuer ≡ false = (differs_lem j.issuer d.issuer).1 m.issued in
      let meant : differs j.audience d.audience ≡ false =
        (differs_lem j.audience d.audience).1 m.meant in
      ground arith,
)
