-- ===== src/Xds/Bootstrap/Address.antt =====
-- The advertised addresses that an edge proxy can dial.
use easy_deploy.Prelude.{
  ℕ, ◌<◌, ◌≡◌, refl, sym, ap, ◌∙◌, arith, true, false, none, some, [], ◌∷◌, ◌++◌, ◌^◌, Text, codes,
  is_empty, All, All-append, if◌then◌else◌, Bool-cases, inl, inr,
}
use mathlib.Core.List.{append_assoc, append-nil}
use easy_deploy.Prelude.Int.{ℤ, pos}
use easy_deploy.Prelude.Decimal.{itoa, itoa_ℕ, atoi-itoa, itoa_ℕ-Lacks, itoa_ℕ-digits, is_digit}
use easy_deploy.Prelude.Split.{cut-append, Lacks}
use easy_deploy.Prelude.Trim.{is_space, trim_space, trim_none}
use easy_deploy.Effect.{ok}
use easy_deploy.Xds.Bootstrap.{
  has_char, cut_last, split_host_port, fixed_lines, target_lines, bootstrap, edge_bootstrap_yaml,
  plain_host,
}

has_char-Lacks : (d : ℕ) (s : Text) → Lacks d s → has_char d s ≡ false
unfolding has_char
has_char-Lacks d [] h = refl
has_char-Lacks d (c ∷ s) h = ground (arith, has_char-Lacks d s h.1)

Lacks-has_char : (d : ℕ) (s : Text) → has_char d s ≡ false → Lacks d s
unfolding has_char
Lacks-has_char d [] h = tt
Lacks-has_char d (c ∷ s) h = (ground arith, Lacks-has_char d s (ground arith))

cut_last-none : (d : ℕ) (s : Text) → Lacks d s → cut_last d s ≡ none
unfolding cut_last
cut_last-none d [] h = refl
cut_last-none d (c ∷ s) h = rw (cut_last-none d s h.1) (ground arith)

cut_last-append : (d : ℕ) (s t : Text) → Lacks d t → cut_last d (s ++ d ∷ t) ≡ some (s, t)
unfolding cut_last
cut_last-append d [] t h = rw (cut_last-none d t h) (ground arith)
cut_last-append d (c ∷ s) t h = rw (cut_last-append d s t h) refl

-- net.JoinHostPort: a host that holds a colon, an address of IPv6, stands in brackets.
unfoldable pub join_host_port : Text → Text → Text
unfolding has_char
join_host_port host port =
    if has_char b':' host then b'[' ∷ (host ++ (b']' ∷ (b':' ∷ port))) else host ++ (b':' ∷ port)

module _ (host port : Text) (no_open : Lacks b'[' host) (no_close : Lacks b']' host)
    (port_colon : Lacks b':' port) (port_open : Lacks b'[' port)
    (port_close : Lacks b']' port) where
  bracketed : split_host_port (b'[' ∷ (host ++ (b']' ∷ (b':' ∷ port)))) ≡ some (host, port)
  unfolding split_host_port
  bracketed = rw (cut-append b']' host (b':' ∷ port) no_close) (
      rw
        (
          has_char-Lacks b':' port port_colon,
          has_char-Lacks b'[' host no_open,
          has_char-Lacks b'[' port port_open,
          has_char-Lacks b']' port port_close,
        )
        refl)

  plainly :
      has_char b':' host ≡ false
      → plain_host (cut_last b':' (host ++ b':' ∷ port)) ≡ some (host, port)
  plainly colon = rw (cut_last-append b':' host port port_colon) (
      rw
        (
          colon,
          has_char-Lacks b'[' host no_open,
          has_char-Lacks b'[' port port_open,
          has_char-Lacks b']' host no_close,
          has_char-Lacks b']' port port_close,
        )
        refl)

plain_first :
    (host rest : Text)
    → is_empty host ≡ false
    → Lacks b'[' host
    → split_host_port (host ++ rest) ≡ plain_host (cut_last b':' (host ++ rest))
unfolding split_host_port
plain_first [] rest some_host h = cc
plain_first (c ∷ host) rest some_host h = rw h.0 refl

split-join :
    (host port : Text)
    → is_empty host ≡ false
    → Lacks b'[' host
    → Lacks b']' host
    → Lacks b':' port
    → Lacks b'[' port
    → Lacks b']' port
    → split_host_port (join_host_port host port) ≡ some (host, port)
unfolding join_host_port
split-join host port some_host h1 h2 p0 p1 p2 = elim (Bool-cases (has_char b':' host)) [
  | inl colon ↦ rw colon (bracketed host port h1 h2 p0 p1 p2)
  | inr plain ↦
      rw plain
        (plain_first host (b':' ∷ port) some_host h1 ∙ plainly host port h1 h2 p0 p1 p2 plain)
]

abbrev NoSpace : Text → Type 0
NoSpace = All (λ c. is_space c ≡ false)

digit_NoSpace : (s : Text) → All (λ c. is_digit c ≡ true) s → NoSpace s
unfolding is_space
digit_NoSpace [] h = tt
digit_NoSpace (c ∷ s) h = (ground arith, digit_NoSpace s h.1)

join-NoSpace : (host port : Text) → NoSpace host → NoSpace port → NoSpace (join_host_port host port)
unfolding join_host_port is_space
join-NoSpace host port h p = elim (Bool-cases (has_char b':' host)) [
  | inl colon ↦ rw colon ((refl, All-append _ host (b']' ∷ (b':' ∷ port)) h (refl, (refl, p))))
  | inr plain ↦ rw plain (All-append _ host (b':' ∷ port) h (refl, p))
]

yaml-join_host_port :
    (node_id host : Text) (port : ℕ)
    → is_empty host ≡ false
    → Lacks b'[' host
    → Lacks b']' host
    → All (λ c. is_space c ≡ false) host
    → 0 < port
    → port < 2 ^ 63
    → edge_bootstrap_yaml node_id (join_host_port host (itoa_ℕ port))
      ≡ ok (bootstrap node_id host (pos port))
unfolding edge_bootstrap_yaml trim_space itoa
yaml-join_host_port node_id host port some_host no_open no_close plain positive fits =
    let digits = itoa_ℕ port in
    rw
      (trim_none is_space (join_host_port host digits)
        (join-NoSpace host digits plain (digit_NoSpace digits (itoa_ℕ-digits port))))
      (rw
        (split-join host digits some_host no_open no_close (itoa_ℕ-Lacks b':' port refl)
          (itoa_ℕ-Lacks b'[' port refl) (itoa_ℕ-Lacks b']' port refl))
        (rw (atoi-itoa (pos port) (fits, omega arith)) (ground arith)))

-- The text has `part` in it.
abbrev pub Holds : Text → Text → Type 0
Holds part t = (before : Text) × (after : Text) × (t ≡ before ++ (part ++ after))

-- The lines of the configuration that say which node the proxy is, and the address that it dials.
abbrev pub node_lines : Text → Text
node_lines node_id = codes "node:" ++ (10 ∷ (codes "  id: " ++ (node_id ++ (10 ∷ []))))

abbrev pub dialled_lines : Text → ℕ → Text
dialled_lines host port =
    codes "                    socket_address:"
    ++ (10
        ∷ (codes "                      address: "
            ++ (host
                ++ (10
                    ∷ (codes "                      port_value: " ++ (itoa_ℕ port ++ (10 ∷ [])))))))

fixed_lines-append : (rest : Text) → fixed_lines rest ≡ fixed_lines [] ++ rest
unfolding fixed_lines itoa
fixed_lines-append rest = refl

bootstrap-node :
    (node_id host : Text) (port : ℤ) → Holds (node_lines node_id) (bootstrap node_id host port)
unfolding bootstrap
bootstrap-node node_id host port =
    ([], _, sym (append_assoc (codes "node:" ++ (10 ∷ (codes "  id: " ++ node_id))) (10 ∷ []) _))

bootstrap-dialled :
    (node_id host : Text) (port : ℕ)
    → Holds (dialled_lines host port) (bootstrap node_id host (pos port))
unfolding bootstrap itoa
bootstrap-dialled node_id host port = (
  codes "node:" ++ (10 ∷ (codes "  id: " ++ (node_id ++ (10 ∷ fixed_lines [])))),
  [],
  ap (λ u. codes "node:" ++ (10 ∷ (codes "  id: " ++ u)))
      (ap (λ u. node_id ++ (10 ∷ u))
          (fixed_lines-append (target_lines host (pos port))
            ∙ ap (λ u. fixed_lines [] ++ u) (sym (append-nil (dialled_lines host port))))
        ∙ sym (append_assoc node_id (10 ∷ fixed_lines []) (dialled_lines host port ++ []))),
)

-- The address of any host, an IPv6 one in brackets included, with a positive port is taken: the
-- configuration of the edge proxy has the lines that give it its node's id, and those that let it
-- dial that host at that port. The host is not empty and has no brackets and no white space; the port
-- fits `int64`.
pub edge_bootstrap_yaml-join_host_port :
    (node_id host : Text) (port : ℕ)
    → is_empty host ≡ false
    → Lacks b'[' host
    → Lacks b']' host
    → All (λ c. is_space c ≡ false) host
    → 0 < port
    → port < 2 ^ 63
    → (yaml : Text) × (edge_bootstrap_yaml node_id (join_host_port host (itoa_ℕ port)) ≡ ok yaml)
      × Holds (node_lines node_id) yaml
      × Holds (dialled_lines host port) yaml
edge_bootstrap_yaml-join_host_port node_id host port some_host no_open no_close plain positive
      fits =
    (
      bootstrap node_id host (pos port),
      yaml-join_host_port node_id host port some_host no_open no_close plain positive fits,
      bootstrap-node node_id host (pos port),
      bootstrap-dialled node_id host port,
    )
