-- ===== src/Config/Lift/Split.antt =====
-- config.rs: what lifting makes of a list of plugins.
use ferrumdns.Base.{
  ◌≡◌, refl, sym, ap, ◌∙◌, inl, inr, Bool-cases, Bool, not, List, [], ◌∷◌, ◌++◌, filter, append_nil,
  append_assoc, Result, ok, err, ◌>>=◌, map_result, result-cases,
}
use ferrumdns.Config.Lift.{is_server_type, server_of, lift, lift_server_plugins}
use ferrumdns.Config.Types.{PluginConfig, ServerConfig, Config}

abbrev pub is_server : PluginConfig → Bool
is_server p = is_server_type p.ty

abbrev pub is_plain : PluginConfig → Bool
is_plain p = not (is_server_type p.ty)

abbrev joined :
    List PluginConfig
    → List ServerConfig
    → List PluginConfig
    → Result (List ServerConfig)
    → Result (List PluginConfig × List ServerConfig)
joined keep servers rest (ok new) = ok (keep ++ rest, servers ++ new)
joined keep servers rest (err e) = err e

joined-plain :
    (keep rest : List PluginConfig) (servers : List ServerConfig) (p : PluginConfig)
    (r : Result (List ServerConfig))
    → joined (keep ++ p ∷ []) servers rest r ≡ joined keep servers (p ∷ rest) r
joined-plain keep rest servers p (ok new) =
    ap (λ l. ok (l, servers ++ new)) (append_assoc keep (p ∷ []) rest)
joined-plain keep rest servers p (err e) = refl

joined-server :
    (keep rest : List PluginConfig) (servers : List ServerConfig) (s : ServerConfig)
    (r : Result (List ServerConfig))
    → joined keep (servers ++ s ∷ []) rest r ≡ joined keep servers rest (r >>= λ new. ok (s ∷ new))
joined-server keep rest servers s (ok new) =
    ap (λ l. ok (keep ++ rest, l)) (append_assoc servers (s ∷ []) new)
joined-server keep rest servers s (err e) = refl

lift-joined :
    (ps keep : List PluginConfig) (servers : List ServerConfig)
    → lift ps keep servers
      ≡ joined keep servers (filter is_plain ps) (map_result server_of (filter is_server ps))
unfolding lift
lift-joined [] keep servers =
    ap (λ l. ok (l, servers)) (sym (append_nil keep))
    ∙ ap (λ l. ok (keep ++ [], l)) (sym (append_nil servers))
lift-joined (p ∷ ps) keep servers = elim (Bool-cases (is_server_type p.ty)) [
  | inr plain ↦ rw plain (lift-joined ps (keep ++ p ∷ []) servers ∙ joined-plain keep _ servers p _)
  | inl server ↦ rw server (elim (result-cases (server_of p)) [
    | inl (e, bad) ↦ rw bad refl
    | inr (s, good) ↦
        rw good (lift-joined ps keep (servers ++ s ∷ []) ∙ joined-server keep _ servers s _)
  ])
]

-- Lifting keeps the plugins that stand for no server, in their order, and adds behind the servers
-- that the configuration lists a server for each of the other plugins, in their order; it fails, with
-- the error of the first of these, when one has no server.
pub lift_server_plugins-filter :
    (cfg : Config)
    → lift_server_plugins cfg ≡ (do
      new ← map_result server_of (filter is_server cfg.plugins)
      ok (record cfg { plugins = filter is_plain cfg.plugins; servers = cfg.servers ++ new }))
unfolding lift_server_plugins
lift_server_plugins-filter cfg =
    rw (lift-joined cfg.plugins [] cfg.servers)
      (elim (result-cases (map_result server_of (filter is_server cfg.plugins))) [
        | inl (e, bad) ↦ rw bad refl
        | inr (new, good) ↦ rw good refl
      ])
