-- ===== src/Configuration/Valid.antt =====
-- What a configuration is when its validation finds no error.
use bg_pls.Base.{
  ℕ, ◌<◌, ◌≡◌, ◌≢◌, ◌↔◌, ◌⊎◌, refl, sym, ◌∙◌, inl, inr, Option-cases, Bool-cases, Text, text,
  Option, some, List, [], ◌∷◌, ◌++◌, Bool, true, false, not, ◌&&◌, ◌||◌, ◌==◌, map, All, Any,
  text_eq, text_eq_iff, is_empty, arith,
}
use bg_pls.Base.Anys.{any-true, any-false}
use bg_pls.Api.Filter.{no_entries}
use bg_pls.Configuration.{
  ℤ, pos, negsuc, Config, Api, DomainConfig, PeerConfig, ConfigError, report, among, is_positive,
  domain_errors, peer_errors, has_ip, binds_loopback, tls_errors, validate,
}

report-nil : (b : Bool) (e : ConfigError) → (report b e ≡ []) ↔ (b ≡ false)
unfolding report
report-nil true e = (λ h. absurd (cc), λ h. absurd (cc))
report-nil false e = (λ h. refl, λ h. refl)

append-eq-nil {ℓ} : {A : Type ℓ} (xs ys : List A) → (xs ++ ys ≡ []) ↔ ((xs ≡ []) × (ys ≡ []))
append-eq-nil [] ys = (λ h. (refl, h), λ h. h.1)
append-eq-nil (x ∷ xs) ys = (λ h. absurd (cc), λ h. absurd (cc (h.0)))

-- A check that is reported, and the checks after it.
reported :
    {P R : Type 0} (b : Bool) (e : ConfigError) (rest : List ConfigError)
    → ((b ≡ false) ↔ P)
    → ((rest ≡ []) ↔ R)
    → (report b e ++ rest ≡ []) ↔ (P × R)
reported b e rest here later = (
  (λ h.
      let (one, two) = (append-eq-nil (report b e) rest).0 h in
      (here.0 ((report-nil b e).0 one), later.0 two)),
  (λ h. (append-eq-nil (report b e) rest).1 ((report-nil b e).1 (here.1 h.0), later.1 h.1)),
)

both :
    {P R : Type 0} {xs ys : List ConfigError}
    → ((xs ≡ []) ↔ P)
    → ((ys ≡ []) ↔ R)
    → (xs ++ ys ≡ []) ↔ (P × R)
both {xs = xs} {ys = ys} here later = (
  (λ h. let (one, two) = (append-eq-nil xs ys).0 h in (here.0 one, later.0 two)),
  (λ h. (append-eq-nil xs ys).1 (here.1 h.0, later.1 h.1)),
)

three_false : (a b c : Bool) → ((a || b || c) ≡ false) ↔ ((a ≡ false) × (b ≡ false) × (c ≡ false))
three_false a b c = ground arith

not-false : (b : Bool) → (not b ≡ false) ↔ (b ≡ true)
not-false b = ground arith

zero_false : (n : ℕ) → ((n == 0) ≡ false) ↔ (0 < n)
zero_false n = ground arith

-- No two entries have an id in common, and none has an earlier one.
abbrev pub IsFresh : List Text → List Text → Type 0
IsFresh seen [] = Unit
IsFresh seen (id ∷ ids) = All (λ s. s ≢ id) seen × IsFresh (id ∷ seen) ids

text_eq-false : (s t : Text) → (text_eq s t ≡ false) ↔ (s ≢ t)
text_eq-false s t = ground (arith, text_eq_iff s t)

is_empty-false : (s : Text) → (is_empty s ≡ false) ↔ (s ≢ [])
is_empty-false [] = (λ h. absurd (cc), λ h. absurd (h refl))
is_empty-false (x ∷ s) = (λ h e. absurd (cc), λ h. refl)

among-false : (id : Text) (seen : List Text) → (among id seen ≡ false) ↔ All (λ s. s ≢ id) seen
among-false id seen = any-false (λ s. text_eq s id) (λ s. s ≢ id) (λ s. text_eq-false s id) seen

domain_errors_iff :
    (seen : List Text) (ds : List DomainConfig)
    → (domain_errors seen ds ≡ []) ↔ (All (λ d. d.id ≢ []) ds × IsFresh seen (map (λ d. d.id) ds))
unfolding domain_errors
domain_errors_iff seen [] = (λ h. (tt, tt), λ h. refl)
domain_errors_iff seen (d ∷ ds) =
    let (there, back) = reported _ ConfigError.domain_id_required _ (is_empty-false d.id) (
      reported _ (ConfigError.duplicate_domain d.id) _ (among-false d.id seen)
        (domain_errors_iff (d.id ∷ seen) ds)) in
    (
      (λ h. let (named, (fresh, rest)) = there h in ((named, rest.0), (fresh, rest.1))),
      (λ h. back (h.0.0, (h.1.0, (h.0.1, h.1.1)))),
    )

as_zero_false : (m n : ℕ) → ((m == 0 || n == 0) ≡ false) ↔ ((0 < m) × (0 < n))
as_zero_false m n = ground arith

module _ {Ip : Type 0} (split_host_port : Text → Text × Bool) (parse_ip : Text → Option Ip)
    (is_loopback : Ip → Bool) where
  -- A peer with an id, in a domain of the configuration, with an address and AS numbers.
  abbrev pub IsValidPeer : List Text → PeerConfig → Type 0
  IsValidPeer domains p =
      (p.id ≢ [])
      × Any (λ d. d ≡ p.domain_id) domains
      × ((ip : Ip) × (parse_ip p.remote_address ≡ some ip))
      × (0 < p.local_as)
      × (0 < p.remote_as)

  -- Without certificates the API listens on a loopback address only.
  abbrev pub IsSecured : Api → Type 0
  IsSecured api =
      let host = (split_host_port api.listen).0 in
      ((api.tls.development_insecure ≡ true)
        × ((host ≡ text "localhost")
            ⊎ ((ip : Ip) × (parse_ip host ≡ some ip) × (is_loopback ip ≡ true))))
      ⊎ ((api.tls.development_insecure ≡ false)
          × (api.tls.certificate ≢ [])
          × (api.tls.private_key ≢ [])
          × (api.tls.client_cas ≢ []))

  pub record IsValid (c : Config) : Type 0 where
    pub has_data_dir : c.data_dir ≢ []
    pub listens : (split_host_port c.api.listen).1 ≡ true
    pub ui_listens : (c.api.ui_listen ≡ []) ⊎ ((split_host_port c.api.ui_listen).1 ≡ true)
    pub secured : IsSecured c.api
    pub keeps : (n : ℕ) × (c.retention.duration ≡ pos n) × (0 < n)
    pub sized : 0 < c.retention.max_bytes
    pub domain_ids : All (λ d. d.id ≢ []) c.domains × IsFresh [] (map (λ d. d.id) c.domains)
    pub peers : All (IsValidPeer (map (λ d. d.id) c.domains)) c.peers
    pub peer_ids : IsFresh [] (map (λ p. p.id) c.peers)

  has_ip_iff :
      (a : Text)
      → (not (has_ip split_host_port parse_ip is_loopback a) ≡ false)
        ↔ ((ip : Ip) × (parse_ip a ≡ some ip))
  has_ip_iff a = elim (Option-cases (parse_ip a)) [
    | inl absent ↦ (λ h. absurd (ground arith), λ h. absurd (cc (absent, h.1)))
    | inr (ip, e) ↦ (λ h. (ip, e), λ h. ground (arith, e))
  ]

  among_true :
      (id : Text) (seen : List Text) → (not (among id seen) ≡ false) ↔ Any (λ s. s ≡ id) seen
  among_true id seen =
      ground (arith, any-true (λ s. text_eq s id) (λ s. s ≡ id) (λ s. text_eq_iff s id) seen)

  peer_errors_iff :
      (domains seen : List Text) (ps : List PeerConfig)
      → (peer_errors split_host_port parse_ip is_loopback domains seen ps ≡ [])
        ↔ (All (IsValidPeer domains) ps × IsFresh seen (map (λ p. p.id) ps))
  unfolding peer_errors
  peer_errors_iff domains seen [] = (λ h. (tt, tt), λ h. refl)
  peer_errors_iff domains seen (p ∷ ps) =
      let (there, back) = reported _ ConfigError.peer_id_required _ (is_empty-false p.id) (
        reported _ (ConfigError.duplicate_peer p.id) _ (among-false p.id seen) (
          reported _ (ConfigError.unknown_domain p.id p.domain_id) _
            (among_true p.domain_id domains)
            (reported _ (ConfigError.invalid_remote_address p.id) _ (has_ip_iff p.remote_address) (
              reported _ (ConfigError.as_zero p.id) _ (as_zero_false p.local_as p.remote_as)
                (peer_errors_iff domains (p.id ∷ seen) ps))))) in
      (
        (λ h.
            let (named, (fresh, (known, (addressed, (numbered, rest))))) = there h in
            (((named, known, addressed, numbered.0, numbered.1), rest.0), (fresh, rest.1))),
        (λ h.
            let (named, known, addressed, local, remote) = h.0.0 in
            back (named, (h.1.0, (known, (addressed, ((local, remote), (h.0.1, h.1.1))))))),
      )

  ui_listen_iff :
      (listen : Text)
      → ((not (is_empty listen) && not (split_host_port listen).1) ≡ false)
        ↔ ((listen ≡ []) ⊎ ((split_host_port listen).1 ≡ true))
  ui_listen_iff [] = (λ h. inl refl, λ h. refl)
  ui_listen_iff (x ∷ listen) = ground arith

  binds_loopback_iff :
      (listen : Text)
      → (not (binds_loopback split_host_port parse_ip is_loopback listen) ≡ false) ↔ (
          ((split_host_port listen).0 ≡ text "localhost")
          ⊎ ((ip : Ip) × (parse_ip (split_host_port listen).0 ≡ some ip) × (is_loopback ip ≡ true)))
  unfolding binds_loopback
  binds_loopback_iff listen =
      let host = (split_host_port listen).0 in
      let named = text_eq_iff host (text "localhost") in
      elim (Option-cases (parse_ip host)) [
        | inl absent ↦ (
          (λ h. inl (named.0 (ground arith))),
          (λ h. elim h [ inl e ↦ ground (arith, named.1 e) | inr (ip, e, loop) ↦ absurd (cc) ]),
        )
        | inr (ip, e) ↦ (
          (λ h. elim (Bool-cases (text_eq host (text "localhost"))) [
            | inl local ↦ inl (named.0 local)
            | inr other ↦ inr (ip, e, ground arith)
          ]),
          (λ h. elim h [
            | inl local ↦ ground (arith, named.1 local)
            | inr (i, f, loop) ↦ let same : i ≡ ip = cc in ground (arith, same)
          ]),
        )
      ]

  tls_insecure :
      (api : Api)
      → api.tls.development_insecure ≡ true
      → tls_errors split_host_port parse_ip is_loopback api
        ≡ report
            (not (binds_loopback split_host_port parse_ip is_loopback api.listen))
            ConfigError.insecure_not_loopback
  unfolding tls_errors
  tls_insecure api h = rw h refl

  tls_secure :
      (api : Api)
      → api.tls.development_insecure ≡ false
      → tls_errors split_host_port parse_ip is_loopback api
        ≡ report
            (is_empty api.tls.certificate
              || is_empty api.tls.private_key
              || no_entries api.tls.client_cas)
            ConfigError.tls_required
  unfolding tls_errors
  tls_secure api h = rw h refl

  no_entries-false : {A : Type 0} (xs : List A) → (no_entries xs ≡ false) ↔ (xs ≢ [])
  no_entries-false [] = (λ h. absurd (cc), λ h. absurd (h refl))
  no_entries-false (x ∷ xs) = (λ h e. absurd (cc), λ h. refl)

  tls_errors_iff :
      (api : Api) → (tls_errors split_host_port parse_ip is_loopback api ≡ []) ↔ IsSecured api
  tls_errors_iff api = elim (Bool-cases api.tls.development_insecure) [
    | inl insecure ↦
        let (there, back) = report-nil _ ConfigError.insecure_not_loopback in
        let loop = binds_loopback_iff api.listen in
        (
          (λ h. inl (insecure, loop.0 (there (sym (tls_insecure api insecure) ∙ h)))),
          (λ h. elim h [
            | inl (_, bound) ↦ tls_insecure api insecure ∙ back (loop.1 bound)
            | inr secure ↦ absurd (cc (insecure, secure.0))
          ]),
        )
    | inr secure ↦
        let (there, back) =
          report-nil
            (is_empty api.tls.certificate
              || is_empty api.tls.private_key
              || no_entries api.tls.client_cas)
            ConfigError.tls_required in
        let (parts, whole) =
          three_false (is_empty api.tls.certificate) (is_empty api.tls.private_key)
            (no_entries api.tls.client_cas) in
        (
          (λ h.
              let (cert, key, cas) = parts (there (sym (tls_secure api secure) ∙ h)) in
              inr (
                secure,
                (is_empty-false api.tls.certificate).0 cert,
                (is_empty-false api.tls.private_key).0 key,
                (no_entries-false api.tls.client_cas).0 cas,
              )),
          (λ h. elim h [
            | inl insecure ↦ absurd (cc (secure, insecure.0))
            | inr (_, cert, key, cas) ↦
                tls_secure api secure
                ∙ back (
                    whole (
                      (is_empty-false api.tls.certificate).1 cert,
                      (is_empty-false api.tls.private_key).1 key,
                      (no_entries-false api.tls.client_cas).1 cas,
                    ))
          ]),
        )
  ]

  is_positive_iff : (d : ℤ) → (not (is_positive d) ≡ false) ↔ ((n : ℕ) × (d ≡ pos n) × (0 < n))
  unfolding is_positive
  is_positive_iff (pos m) = (
    (λ h. (m, refl, ground arith)),
    (λ h. let (n, e, lt) = h in let same : m ≡ n = cc in ground arith),
  )
  is_positive_iff (negsuc m) = ((λ h. absurd (cc)), (λ h. let (n, e, lt) = h in absurd (cc)))

  -- A configuration has no error exactly if it is valid: it has a data directory, good listen
  -- addresses, certificates or a loopback address, a positive retention, domains with distinct ids,
  -- and peers with distinct ids, an address, AS numbers and a domain of the configuration.
  pub validate_iff :
      (c : Config) → (validate split_host_port parse_ip is_loopback c ≡ []) ↔ IsValid c
  unfolding validate
  validate_iff c =
      let (there, back) = reported _ ConfigError.data_dir_required _ (is_empty-false c.data_dir) (
        reported _ ConfigError.api_listen _ (not-false (split_host_port c.api.listen).1) (
          reported _ ConfigError.api_ui_listen _ (ui_listen_iff c.api.ui_listen) (
            both (tls_errors_iff c.api) (
              reported _ ConfigError.duration_not_positive _ (is_positive_iff c.retention.duration)
                (reported _ ConfigError.max_bytes_zero _ (zero_false c.retention.max_bytes) (
                  both (domain_errors_iff [] c.domains)
                    (peer_errors_iff (map (λ d. d.id) c.domains) [] c.peers))))))) in
      (
        (λ h.
            let (dir, (listen, (ui, (tls, (kept, (size, (domains, peers))))))) = there h in
            record {
              has_data_dir = dir;
              listens = listen;
              ui_listens = ui;
              secured = tls;
              keeps = kept;
              sized = size;
              domain_ids = domains;
              peers = peers.0;
              peer_ids = peers.1;
            }),
        (λ v. back (
          v.has_data_dir,
          (
            v.listens,
            (
              v.ui_listens,
              (v.secured, (v.keeps, (v.sized, (v.domain_ids, (v.peers, v.peer_ids))))),
            ),
          ),
        )),
      )
