-- ===== src/Api/Auth.antt =====
-- internal/api/auth.go: roles, and the middleware that forwards or refuses a request.
-- `path.Match` is the argument `glob`, with `none` for its error.
pub mod Roles
use bg_pls.Base.{
  ℕ, ◌+◌, Text, text, Option, none, some, List, [], ◌∷◌, Bool, true, false, not, ◌&&◌, ◌||◌, ltb,
  any, text_eq, if◌then◌else◌,
}
use bg_pls.Base.Ascii.{to_lower, contains}

-- `Role`, an int.
abbrev pub Role : Type 0
Role = ℕ

abbrev pub role_none : Role
role_none = 0

abbrev pub role_reader : Role
role_reader = 1

abbrev pub role_operator : Role
role_operator = 2

abbrev pub role_admin : Role
role_admin = 3

pub record RoleMapping : Type 0 where
  pub role : Text
  pub uri_sans : List Text
  pub dns_sans : List Text

-- The names of a client certificate that the code reads.
pub record Certificate : Type 0 where
  pub uris : List Text
  pub dns_names : List Text

pub record Authorizer : Type 0 where
  pub mappings : List RoleMapping
  pub insecure : Bool
  pub anonymous_reader : Bool

-- `tls` holds the verified chains of the connection; it is `none` on plain HTTP.
pub record Request : Type 0 where
  pub tls : Option (List (List Certificate))
  pub path : Text

pub data Outcome : Type 0 where
  forwarded forbidden panicked : Outcome

unfoldable pub new_authorizer : List RoleMapping → Bool → Bool → Authorizer
new_authorizer mappings insecure anonymous_reader = record {
  mappings = mappings;
  insecure = insecure;
  anonymous_reader = anonymous_reader;
}

unfoldable pub reload : Authorizer → List RoleMapping → Bool → Authorizer
reload a mappings anonymous_reader = record a {
  mappings = mappings;
  anonymous_reader = anonymous_reader;
}

unfoldable pub role_value : Text → Role
role_value role =
    let name = to_lower role in
    if text_eq name (text "reader")
    then role_reader
    else if text_eq name (text "operator")
    then role_operator
    else if text_eq name (text "admin")
    then role_admin
    else role_none

unfoldable pub required_role : Text → Role
required_role procedure =
    if contains procedure (text "CreatePeer")
      || (contains procedure (text "UpdatePeer")
          || (contains procedure (text "DeletePeer")
              || (contains procedure (text "ImportPeerConfig")
                  || contains procedure (text "ExportPeerConfig"))))
    then role_admin
    else if contains procedure (text "SetPeerAdminState") || contains procedure (text "ResetPeer")
    then role_operator
    else role_reader

module _ (glob : Text → Text → Option Bool) where
  -- `match`
  unfoldable pub matches : Text → Text → Bool
  matches pattern value = elim (glob pattern value) [ none ↦ false | some ok ↦ ok ]

  -- One test of the inner loops: a match raises `best` to `role`.
  unfoldable pub raise : Role → Role → Bool → Role
  raise role best hit = if hit && ltb best role then role else best

  -- The loops over a certificate's names and a mapping's patterns.
  unfoldable pub scan_patterns : Role → Text → List Text → Role → Role
  unfolding raise matches
  scan_patterns role name [] best = best
  scan_patterns role name (pattern ∷ ps) best =
      scan_patterns role name ps (raise role best (matches pattern name))

  unfoldable pub scan_names : Role → List Text → List Text → Role → Role
  unfolding scan_patterns
  scan_names role patterns [] best = best
  scan_names role patterns (name ∷ ns) best =
      scan_names role patterns ns (scan_patterns role name patterns best)

  unfoldable pub scan_mappings : Certificate → List RoleMapping → Role → Role
  unfolding scan_names role_value
  scan_mappings cert [] best = best
  scan_mappings cert (m ∷ ms) best =
      let role = role_value m.role in
      scan_mappings cert ms
        (scan_names role m.dns_sans cert.dns_names (scan_names role m.uri_sans cert.uris best))

  unfoldable pub role_of : Authorizer → Certificate → Role
  unfolding scan_mappings
  role_of a cert = scan_mappings cert a.mappings role_none

  -- The role of a request; `none` is the index panic on an empty chain.
  unfoldable pub request_role : Authorizer → Request → Option Role
  unfolding role_of
  request_role a r = elim r.tls [
    | none ↦
        some
          (if a.insecure then role_admin else if a.anonymous_reader then role_reader else role_none)
    | some [] ↦ some (if a.anonymous_reader then role_reader else role_none)
    | some ([] ∷ chains) ↦ none
    | some ((cert ∷ chain) ∷ chains) ↦ some (role_of a cert)
  ]

  unfoldable pub middleware : Authorizer → Request → Outcome
  unfolding request_role required_role
  middleware a r = elim (request_role a r) [
    | none ↦ panicked
    | some role ↦ if ltb role (required_role r.path) then forbidden else forwarded
  ]
