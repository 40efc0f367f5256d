-- ===== src/Api/Auth/Roles.antt =====
-- The role of a certificate is the greatest that a matching mapping grants, and what each kind of
-- client may call.
use bg_pls.Base.{
  ◌<◌, ◌≤◌, ◌≡◌, refl, ◌∙◌, ◌⊎◌, inl, inr, Text, text, Option, some, List, [], ◌∷◌, Bool, true, All,
  Any, arith,
}
use bg_pls.Api.Auth.{
  Role, role_none, RoleMapping, Certificate, Authorizer, Request, forbidden, role_value,
  required_role, matches, raise, scan_patterns, scan_names, scan_mappings, role_of, request_role,
  middleware,
}

-- The procedures that change peers or show their configuration, by name.
abbrev pub privileged : List Text
privileged =
    text "CreatePeer"
    ∷ text "UpdatePeer"
    ∷ text "DeletePeer"
    ∷ text "ImportPeerConfig"
    ∷ text "ExportPeerConfig"
    ∷ text "SetPeerAdminState"
    ∷ text "ResetPeer"
    ∷ []

module _ (glob : Text → Text → Option Bool) where
  -- A pattern of the mapping matches a name of the certificate.
  abbrev Hits : List Text → List Text → Type 0
  Hits patterns names = Any (λ name. Any (λ p. matches glob p name ≡ true) patterns) names

  -- The mapping names the certificate, by a URI or by a DNS name.
  abbrev pub Grants : Certificate → RoleMapping → Type 0
  Grants cert m = Hits m.uri_sans cert.uris ⊎ Hits m.dns_sans cert.dns_names

  record Scanned (role best : Role) (Hit : Type 0) (out : Role) : Type 0 where
    kept : best ≤ out
    covers : Hit → role ≤ out
    origin : (out ≡ best) ⊎ (Hit × (out ≡ role))

  scan_patterns_lem :
      (role : Role) (name : Text) (ps : List Text) (best : Role)
      → Scanned role best
          (Any (λ p. matches glob p name ≡ true) ps)
          (scan_patterns glob role name ps best)
  unfolding scan_patterns raise
  scan_patterns_lem role name [] best = record {
    kept = omega arith;
    covers = λ h. absurd h;
    origin = inl refl;
  }
  scan_patterns_lem role name (p ∷ ps) best =
      ground (arith, scan_patterns_lem role name ps (raise glob role best (matches glob p name)))

  scan_names_lem :
      (role : Role) (ps ns : List Text) (best : Role)
      → Scanned role best (Hits ps ns) (scan_names glob role ps ns best)
  unfolding scan_names
  scan_names_lem role ps [] best = record {
    kept = omega arith;
    covers = λ h. absurd h;
    origin = inl refl;
  }
  scan_names_lem role ps (n ∷ ns) best =
      let next = scan_patterns glob role n ps best in
      ground (arith, scan_patterns_lem role n ps best, scan_names_lem role ps ns next)

  -- The greatest role among the mappings that name the certificate, or the start value.
  record Greatest (cert : Certificate) (best : Role) (ms : List RoleMapping) (out : Role)
      : Type 0 where
    kept : best ≤ out
    covers : All (λ m. Grants cert m → role_value m.role ≤ out) ms
    origin : (out ≡ best) ⊎ Any (λ m. Grants cert m × (out ≡ role_value m.role)) ms

  scan_mappings_lem :
      (cert : Certificate) (ms : List RoleMapping) (best : Role)
      → Greatest cert best ms (scan_mappings glob cert ms best)
  unfolding scan_mappings
  scan_mappings_lem cert [] best = record { kept = omega arith; covers = tt; origin = inl refl }
  scan_mappings_lem cert (m ∷ ms) best =
      let role = role_value m.role in
      let uri = scan_names glob role m.uri_sans cert.uris best in
      let dns = scan_names glob role m.dns_sans cert.dns_names uri in
      let a = scan_names_lem role m.uri_sans cert.uris best in
      let b = scan_names_lem role m.dns_sans cert.dns_names uri in
      let c = scan_mappings_lem cert ms dns in
      record {
        kept = omega (arith, a.kept, b.kept, c.kept);
        covers = (
          λ g. elim g [
            | inl uri_hit ↦ omega (arith, a.covers uri_hit, b.kept, c.kept)
            | inr dns_hit ↦ omega (arith, b.covers dns_hit, c.kept)
          ],
          c.covers,
        );
        origin = elim c.origin [
          | inr later ↦ inr (inr later)
          | inl e ↦ elim b.origin [
            | inr (hit, q) ↦ inr (inl (inr hit, e ∙ q))
            | inl e' ↦ elim a.origin [
              | inr (hit, q) ↦ inr (inl (inl hit, e ∙ e' ∙ q))
              | inl e'' ↦ inl (e ∙ e' ∙ e'')
            ]
          ]
        ];
      }

  -- The role of a certificate is at least that of every mapping that names it, and it is none or
  -- the role of such a mapping: no match order lowers it and nothing else raises it.
  pub role_of_greatest :
      (a : Authorizer) (cert : Certificate)
      → All (λ m. Grants cert m → role_value m.role ≤ role_of glob a cert) a.mappings
        × ((role_of glob a cert ≡ role_none)
            ⊎ Any (λ m. Grants cert m × (role_of glob a cert ≡ role_value m.role)) a.mappings)
  unfolding role_of
  role_of_greatest a cert =
      let g = scan_mappings_lem cert a.mappings role_none in (g.covers, g.origin)

  required_role-pos : (path : Text) → 0 < required_role path
  unfolding required_role
  required_role-pos path = ground arith

  not-Any :
      (cert : Certificate) (ms : List RoleMapping) (role : Role)
      → All (λ m. ¬ Grants cert m) ms
      → ¬ Any (λ m. Grants cert m × (role ≡ role_value m.role)) ms
  not-Any cert [] role h = λ k. k
  not-Any cert (m ∷ ms) role h = elim [ inl k ↦ h.0 k.0 | inr k ↦ not-Any cert ms role h.1 k ]

  -- A verified certificate that no mapping names may call nothing, not even as a reader.
  pub stranger_forbidden :
      (a : Authorizer) (r : Request) (cert : Certificate) (chain : List Certificate)
      (chains : List (List Certificate))
      → r.tls ≡ some ((cert ∷ chain) ∷ chains)
      → All (λ m. ¬ Grants cert m) a.mappings
      → middleware glob a r ≡ forbidden
  unfolding middleware request_role
  stranger_forbidden a r cert chain chains e h =
      let unnamed : role_of glob a cert ≡ role_none = elim (role_of_greatest a cert).1 [
        | inl none_given ↦ none_given
        | inr some_given ↦ absurd (not-Any cert a.mappings (role_of glob a cert) h some_given)
      ] in
      ground (arith, required_role-pos r.path)
