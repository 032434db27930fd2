-- ===== src/Cli/Request/Accepted.antt =====
-- What cli/src/curl.rs posts, the validation of server/src/api/requests.rs accepts.
use keychute.Api.{CreateAccessRequest}
use keychute.Api.Validation.{validate_request, validate_idempotency_key, structured_fits}
use keychute.Cli.{Target, normalize_method}
use keychute.Cli.Key.{Call, preimage, call_bound_idempotency_key}
use keychute.Cli.Options.{CurlArgs, key_fits, secret_fits, validate_grant_options}
use keychute.Cli.Options.Accepted.{validate_grant_options-accepted, options-new, new_grant-sizes}
use keychute.Cli.Options.Fit.{AcceptsTokens}
use keychute.Cli.Request.{access_request, user_key}
use keychute.Prelude.{
  ℕ, zero, suc, ◌≤◌, ◌≡◌, refl, Bool, true, false, not, ◌&&◌, Option, none, some, [], ◌∷◌, ◌++◌,
  arith, Text, ok, leb, length, is_empty, take, length-append, some_inj,
}
use keychute.Types.{Constraints, Mechanism}

length-take_le : (n : ℕ) (s : Text) → length (take n s) ≤ n
length-take_le zero s = omega arith
length-take_le (suc n) [] = omega arith
length-take_le (suc n) (c ∷ s) = omega (arith, length-take_le n s)

append-filled : (s t : Text) (c : ℕ) → is_empty (s ++ c ∷ t) ≡ false
append-filled [] t c = refl
append-filled (b ∷ s) t c = refl

user_key-fits :
    (o : Option Text) (fresh : Text)
    → key_fits o ≡ true
    → length fresh ≡ 36
    → leb (length (elim o [ none ↦ fresh | some key ↦ key ])) 91 ≡ true
user_key-fits none fresh f n = rw n refl
user_key-fits (some key) fresh f n = ground arith

-- The derived key is neither empty nor longer than either side allows.
key-bounded :
    (sha256_hex : Text → Text) (user : Text) (call : Call)
    → leb (length user) 91 ≡ true
    → (is_empty (call_bound_idempotency_key sha256_hex user call) ≡ false)
      × (length (call_bound_idempotency_key sha256_hex user call) ≤ 124)
unfolding call_bound_idempotency_key
key-bounded sha256_hex user call h =
    let tail = take 32 (sha256_hex (preimage call)) in
    (
      append-filled user tail b'-',
      grind
          (arith, length-append user (b'-' ∷ tail), length-take_le 32 (sha256_hex (preimage call))),
    )

named-fits :
    (o : Option Text) (name : Text)
    → o ≡ some name
    → secret_fits o ≡ true
    → (not (is_empty name) && leb (length name) 256) ≡ true
named-fits none name e h = absurd (cc)
named-fits (some n) name e h = rw (some_inj n name e) at h

within : (n m b : ℕ) → n ≤ m → leb m b ≡ true → leb n b ≡ true
within n m b h k = ground arith

-- Options without a grant that validate, with a secret's name, for a normalised method: a request is
-- built for the call, and the server's validation of it succeeds. The method's syntax is that of a
-- token, the text of a UUID has 36 bytes and the structured context is within its limit.
pub access_request-accepted :
    (method_ok : Text → Bool) (sha256_hex : Text → Text) (args : CurlArgs) (call : Call)
    (raw fresh name structured : Text)
    → AcceptsTokens method_ok
    → normalize_method method_ok raw ≡ ok call.method
    → args.grant_id ≡ none
    → args.secret ≡ some name
    → length fresh ≡ 36
    → structured_fits (some structured) ≡ true
    → validate_grant_options method_ok args call.target call.method ≡ ok tt
    → (req : CreateAccessRequest) × (stored : Constraints) × (access_request method_ok sha256_hex
          args fresh call name structured
        ≡ ok req)
      × (validate_request req ≡ ok stored)
unfolding access_request keychute.Cli.Request.validate_idempotency_key validate_request
    validate_idempotency_key
access_request-accepted method_ok sha256_hex args call raw fresh name structured tokens normal new
      given random small h =
    let checked = options-new method_ok args call.target call.method new h in
    let (key_fine, named, short) = new_grant-sizes method_ok args call.target call.method checked in
    let (canonical, asked, stored, clean, wanted, accepted) =
      validate_grant_options-accepted method_ok args call.target raw call.method tokens normal new
        h in
    let fits = user_key-fits args.idempotency_key fresh key_fine random in
    let (filled, bounded) = key-bounded sha256_hex (user_key args fresh) call fits in
    let valid = named-fits args.secret name given named in
    let key : Text = call_bound_idempotency_key sha256_hex (user_key args fresh) call in
    let short_key : leb (length key) 124 ≡ true = within (length key) 124 124 bounded refl in
    let server_key : leb (length key) 128 ≡ true = within (length key) 124 128 bounded refl in
    (
      record {
        idempotency_key = key;
        secret_name = name;
        mechanism = Mechanism.brokered;
        constraints = asked;
        context = record { reason = args.reason; structured = some structured };
      },
      stored,
      rw (fits, filled, short_key, wanted) refl,
      rw (filled, server_key, valid, short, small) accepted,
    )
