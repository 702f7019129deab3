-- ===== src/MultiAuth/Jwt/Accepted.antt =====
-- Which tokens the JWT provider accepts.
use advanced_golang_tutorial.Prelude.{
  ℕ, ◌≡◌, ◌↔◌, refl, ap, ◌∙◌, true, List, [], ◌∷◌, ◌++◌, some, arith, Option-cases, Text, same_text,
  same_text_refl, same_text-eq, split_at, ◌⊎◌, inl, inr,
}
use advanced_golang_tutorial.MultiAuth.Selection.{AuthResult}
use advanced_golang_tutorial.MultiAuth.Jwt.{
  Packages, JwtProvider, JwtHeader, JwtPayload, dot, hs256, decode_header, decode_payload,
  verify_signature, verify_claims, result_of, authenticate_parts, authenticate,
}
use advanced_golang_tutorial.MultiAuth.Jwt.Checks.{
  IsHeader, IsPayload, MeetsClaims, decode_header-IsHeader, decode_payload-IsPayload,
  verify_signature_lem, verify_claims-MeetsClaims,
}

-- An answer of a routine that gives a value or an error.
answer-cases : {A B : Type 0} (x : A ⊎ B) → ((a : A) × (x ≡ inl a)) ⊎ ((b : B) × (x ≡ inr b))
answer-cases (inl a) = inl (a, refl)
answer-cases (inr b) = inr (b, refl)

pub record IsAccepted (p : Packages) (j : JwtProvider) (now : ℕ) (token : Text) (r : AuthResult)
    : Type 0 where
  pub head : Text
  pub body : Text
  pub signature : Text
  pub header : JwtHeader
  pub payload : JwtPayload
  pub parts : split_at dot token ≡ head ∷ body ∷ signature ∷ []
  pub of_header : IsHeader p head header
  pub algorithm : header.algorithm ≡ hs256
  pub of_payload : IsPayload p body payload
  pub signed : p.base64_decode signature ≡ some (p.hmac_sha256 j.secret_key (head ++ dot ∷ body))
  pub claims : MeetsClaims j now payload
  pub result : r ≡ result_of p j token now payload

three-IsAccepted :
    (p : Packages) (j : JwtProvider) (now : ℕ) (token head body signature : Text) (r : AuthResult)
    → split_at dot token ≡ head ∷ body ∷ signature ∷ []
    → authenticate_parts p j now token (head ∷ body ∷ signature ∷ []) ≡ inr r
    → IsAccepted p j now token r
unfolding authenticate_parts
three-IsAccepted p j now token head body signature r parts e =
    elim (answer-cases (decode_header p head)) [
      | inl (x, e1) ↦ ground arith
      | inr (h, e1) ↦ elim (answer-cases (decode_payload p body)) [
        | inl (x, e2) ↦ ground arith
        | inr (d, e2) ↦ elim (Option-cases (verify_signature p j head body signature)) [
          | inr (x, e3) ↦ ground arith
          | inl e3 ↦ elim (Option-cases (verify_claims j now d)) [
            | inr (x, e4) ↦ ground arith
            | inl e4 ↦
                let supported : same_text h.algorithm hs256 ≡ true = ground arith in
                record {
                  head = head;
                  body = body;
                  signature = signature;
                  header = h;
                  payload = d;
                  parts = parts;
                  of_header = (decode_header-IsHeader p head h).0 e1;
                  algorithm = same_text-eq h.algorithm hs256 supported;
                  of_payload = (decode_payload-IsPayload p body d).0 e2;
                  signed = (verify_signature_lem p j head body signature).0 e3;
                  claims = (verify_claims-MeetsClaims j now d).0 e4;
                  result = ground arith;
                }
          ]
        ]
      ]
    ]

parts-IsAccepted :
    (p : Packages) (j : JwtProvider) (now : ℕ) (token : Text) (r : AuthResult) (parts : List Text)
    → split_at dot token ≡ parts
    → authenticate_parts p j now token parts ≡ inr r
    → IsAccepted p j now token r
unfolding authenticate_parts
parts-IsAccepted p j now token r [] split e = cc
parts-IsAccepted p j now token r (a ∷ []) split e = cc
parts-IsAccepted p j now token r (a ∷ b ∷ []) split e = cc
parts-IsAccepted p j now token r (a ∷ b ∷ c ∷ []) split e =
    three-IsAccepted p j now token a b c r split e
parts-IsAccepted p j now token r (a ∷ b ∷ c ∷ d ∷ ds) split e = cc

accepted_parts :
    (p : Packages) (j : JwtProvider) (now : ℕ) (token : Text) (r : AuthResult)
    → IsAccepted p j now token r
    → authenticate_parts p j now token (split_at dot token) ≡ inr r
unfolding authenticate_parts
accepted_parts p j now token r a =
    let e1 = (decode_header-IsHeader p a.head a.header).1 a.of_header in
    let e2 = (decode_payload-IsPayload p a.body a.payload).1 a.of_payload in
    let e3 = (verify_signature_lem p j a.head a.body a.signature).1 a.signed in
    let e4 = (verify_claims-MeetsClaims j now a.payload).1 a.claims in
    let e5 : same_text a.header.algorithm hs256 ≡ true =
      ap (λ t. same_text t hs256) a.algorithm ∙ same_text_refl hs256 in
    let result = a.result in
    let supported : authenticate_parts p j now token (a.head ∷ a.body ∷ a.signature ∷ []) ≡ inr r =
      ground arith in
    ap (authenticate_parts p j now token) a.parts ∙ supported

-- The provider returns a result exactly for a token of three parts whose first two decode to a
-- header with the algorithm HS256 and to a payload, whose third decodes to the HMAC of the first two
-- under the secret key, and whose payload is not past its expiry, where it has one, and has the
-- issuer and the audience that the provider demands, where it demands them; the result is then made
-- of the payload.
pub authenticate-IsAccepted :
    (p : Packages) (now latency : ℕ) (token : Text) (j : JwtProvider) (r : AuthResult)
    → ((authenticate p now latency token j).0 ≡ inr r) ↔ IsAccepted p j now token r
unfolding authenticate
authenticate-IsAccepted p now latency token j r =
    (parts-IsAccepted p j now token r (split_at dot token) refl, accepted_parts p j now token r)
