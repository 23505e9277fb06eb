-- ===== src/Auth/Qr/RoundTrip.antt =====
-- A QR code of auth-service leads back to its user.
use Prim.Native.String.{char_at}
use kufi_e_wallet_with_hyper.Prelude.{
  ℕ, arith, leb, String, str_eq, eq_refl, text_append, true, false, some, or_else, [], ◌∷◌, ◌≡◌,
  refl, ap, ◌∙◌,
}
use kufi_e_wallet_with_hyper.Prelude.Text.{is_empty, trim}
use kufi_e_wallet_with_hyper.Prelude.Text.Split.{split}
use kufi_e_wallet_with_hyper.Prelude.Text.Pieces.{
  no_space, no_space-append, lacks_char, trim_lem, split-piece, split_whole,
}
use kufi_e_wallet_with_hyper.Auth.{User, AuthStore, returns, AuthEnv, is_active}
use kufi_e_wallet_with_hyper.Auth.Users.{find_by_id}
use kufi_e_wallet_with_hyper.Auth.Qr.{
  QrToken, QrRecipient, sign_qr_payload, seconds, qr_payload, signed_token, token_for, issue_for,
  issue_qr_transfer_token, live_claims, verify_parts, verify_qr_token, qr_recipient,
  active_recipient, recipient_of, resolve_qr_transfer_token,
}

-- A text of the alphabet of base64url has neither dots nor spaces.
pub record IsWebText (s : String) : Type 0 where
  pub dotless : lacks_char b'.' s ≡ true
  pub spaceless : no_space s ≡ true

split-signed :
    (a b : String)
    → IsWebText a
    → IsWebText b
    → split b'.' (text_append a (text_append "." b)) ≡ a ∷ b ∷ []
split-signed a b h k =
    split-piece (char_at "." 0) a b h.dotless ∙ ap (λ rest. a ∷ rest) (split_whole b'.' b k.dotless)

trim-signed :
    (a b : String)
    → IsWebText a
    → IsWebText b
    → trim (text_append a (text_append "." b)) ≡ text_append a (text_append "." b)
unfolding no_space
trim-signed a b h k = trim_lem (text_append a (text_append "." b)) (
    no_space-append a (text_append "." b)
    ∙ ground (arith, no_space-append "." b, h.spaceless, k.spaceless))

verify-signed :
    (env : AuthEnv) (encoded signature id : String) (exp : ℕ)
    → IsWebText encoded
    → IsWebText signature
    → sign_qr_payload env encoded ≡ signature
    → env.decode_qr encoded ≡ some (record { user_id = id; exp = some exp })
    → leb exp (seconds env) ≡ false
    → verify_qr_token env (trim (text_append encoded (text_append "." signature))) ≡ some id
unfolding verify_qr_token verify_parts live_claims
verify-signed env encoded signature id exp a b signed decoded live =
    ap (verify_qr_token env) (trim-signed encoded signature a b)
    ∙ (ap (verify_parts env) (split-signed encoded signature a b)
        ∙ rw (ap (str_eq signature) signed ∙ eq_refl signature, decoded, live) refl)

-- The token of a QR code made for a user with a phone, who is active, is read back to that user until
-- it expires, where the two calls sign alike, the payload is decoded as it was encoded, both texts are
-- of base64url, and the user's id is no blank text.
pub resolve-issue :
    (env env' : AuthEnv) (s : AuthStore) (id : String) (u : User) (encoded signature : String)
    → find_by_id id s ≡ some u
    → u.id ≡ id
    → is_active u.account_status ≡ true
    → is_empty (trim (or_else u.phone "")) ≡ false
    → is_empty id ≡ false
    → env.encode_qr (qr_payload env u) ≡ encoded
    → sign_qr_payload env encoded ≡ signature
    → sign_qr_payload env' encoded ≡ signature
    → env'.decode_qr encoded ≡ some (record { user_id = id; exp = some (qr_payload env u).exp })
    → IsWebText encoded
    → IsWebText signature
    → leb (qr_payload env u).exp (seconds env') ≡ false
    → (k : QrToken) × (r : QrRecipient) × (issue_qr_transfer_token env id s ≡ returns k)
      × (resolve_qr_transfer_token env' k.token s ≡ some r)
      × (r.user_id ≡ id)
unfolding issue_qr_transfer_token issue_for token_for signed_token resolve_qr_transfer_token
    recipient_of active_recipient qr_recipient
resolve-issue env env' s id u encoded signature found same_id active phone nonempty made signed
      alike decoded a b live =
    (
      token_for env u,
      qr_recipient u,
      rw (found, phone) refl,
      ap (λ t. resolve_qr_transfer_token env' t s)
            (ap (signed_token env) made ∙ ap (λ t. text_append encoded (text_append "." t)) signed)
          ∙ (ap (λ who. recipient_of who s)
                (verify-signed env' encoded signature id (qr_payload env u).exp a b alike decoded
                  live)
              ∙ rw (nonempty, found, active) refl),
      same_id,
    )
