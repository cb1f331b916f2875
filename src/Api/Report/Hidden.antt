-- ===== src/Api/Report/Hidden.antt =====
-- api.rs: what is not shown of the upstreams.
use ferrumdns.Api.Origin.{Url, Urls}
use ferrumdns.Api.Report.{
  of_url, normalized, public_upstream_address, plugin_name, named, show_upstream, show_values,
  values_of, is_forward, show_upstreams, system,
}
use ferrumdns.Base.{
  ◌≡◌, refl, subst, inl, inr, Bool-cases, true, false, Option, none, some, List, [], ◌∷◌, Text,
  Result, ok, err, map,
}
use ferrumdns.Config.Types.{PluginConfig, Config}
use ferrumdns.Upstream.Spec.{UpstreamSpec, from_value}
use ferrumdns.Yaml.{Value}

-- The same protocol, host and port, or neither can be read.
unfoldable pub SameEnd : Option Url → Option Url → Type 0
SameEnd none none = Unit {0}
SameEnd (some u) (some v) = (u.scheme ≡ v.scheme) × (u.host_str ≡ v.host_str) × (u.port ≡ v.port)
SameEnd none (some v) = ⊥
SameEnd (some u) none = ⊥

of_url-SameEnd : (u v : Option Url) → SameEnd u v → of_url u ≡ of_url v
unfolding SameEnd
of_url-SameEnd none none h = refl
of_url-SameEnd (some u) (some v) (scheme, host, port) = rw (scheme, host, port) refl
of_url-SameEnd none (some v) h = absurd h
of_url-SameEnd (some u) none h = absurd h

module _ (U : Urls) where
  unfoldable pub AlikeSpecs : Result UpstreamSpec → Result UpstreamSpec → Type 0
  AlikeSpecs (err e) (err f) = Unit {0}
  AlikeSpecs (ok s) (ok t) =
      (s.tag ≡ t.tag) × SameEnd (U.parse (normalized s.addr)) (U.parse (normalized t.addr))
  AlikeSpecs (err e) (ok t) = ⊥
  AlikeSpecs (ok s) (err f) = ⊥

  -- Upstreams one by one of the same tag and endpoint.
  unfoldable pub AlikeValues : List Value → List Value → Type 0
  AlikeValues [] [] = Unit {0}
  AlikeValues (v ∷ vs) (w ∷ ws) = AlikeSpecs (from_value v) (from_value w) × AlikeValues vs ws
  AlikeValues [] (w ∷ ws) = ⊥
  AlikeValues (v ∷ vs) [] = ⊥

  -- Plugins one by one of the same tag and type, with such upstreams if they are forwarders.
  unfoldable pub AlikePlugins : List PluginConfig → List PluginConfig → Type 0
  AlikePlugins [] [] = Unit {0}
  AlikePlugins (p ∷ ps) (q ∷ qs) =
      (p.tag ≡ q.tag)
      × (p.ty ≡ q.ty)
      × (is_forward p.ty ≡ true → AlikeValues (values_of p) (values_of q))
      × AlikePlugins ps qs
  AlikePlugins [] (q ∷ qs) = ⊥
  AlikePlugins (p ∷ ps) [] = ⊥

  show_upstream-AlikeSpecs :
      (name : Text) (r r' : Result UpstreamSpec)
      → AlikeSpecs r r'
      → show_upstream U name r ≡ show_upstream U name r'
  unfolding AlikeSpecs public_upstream_address
  show_upstream-AlikeSpecs name (err e) (err f) h = refl
  show_upstream-AlikeSpecs name (ok s) (ok t) (tag, same) =
      rw (tag, of_url-SameEnd (U.parse (normalized s.addr)) (U.parse (normalized t.addr)) same) refl
  show_upstream-AlikeSpecs name (err e) (ok t) h = absurd h
  show_upstream-AlikeSpecs name (ok s) (err f) h = absurd h

  show_values-AlikeValues :
      (name : Text) (vs ws : List Value)
      → AlikeValues vs ws
      → show_values U name vs ≡ show_values U name ws
  unfolding AlikeValues
  show_values-AlikeValues name [] [] h = refl
  show_values-AlikeValues name (v ∷ vs) (w ∷ ws) (h, hs) =
      rw
        (
          show_upstream-AlikeSpecs name (from_value v) (from_value w) h,
          show_values-AlikeValues name vs ws hs,
        )
        refl
  show_values-AlikeValues name [] (w ∷ ws) h = absurd h
  show_values-AlikeValues name (v ∷ vs) [] h = absurd h

  show_upstreams-AlikePlugins :
      (ps qs : List PluginConfig) → AlikePlugins ps qs → show_upstreams U ps ≡ show_upstreams U qs
  unfolding AlikePlugins show_upstreams
  show_upstreams-AlikePlugins [] [] h = refl
  show_upstreams-AlikePlugins (p ∷ ps) (q ∷ qs) (tag, ty, values, h) =
      let names : plugin_name p ≡ plugin_name q = rw (tag, ty) refl in
      let later = show_upstreams-AlikePlugins ps qs h in
      elim (Bool-cases (is_forward p.ty)) [
        | inl forwards ↦
            let same : is_forward q.ty ≡ true = subst (λ t. is_forward t ≡ true) ty forwards in
            rw
              (
                forwards,
                same,
                show_values-AlikeValues (plugin_name p) (values_of p) (values_of q)
                    (values forwards),
                names,
                later,
              )
              refl
        | inr other ↦
            let same : is_forward q.ty ≡ false = subst (λ t. is_forward t ≡ false) ty other in
            rw (other, same, later) refl
      ]
  show_upstreams-AlikePlugins [] (q ∷ qs) h = absurd h
  show_upstreams-AlikePlugins (p ∷ ps) [] h = absurd h

  names-AlikePlugins :
      (ps qs : List PluginConfig) → AlikePlugins ps qs → map named ps ≡ map named qs
  unfolding AlikePlugins
  names-AlikePlugins [] [] h = refl
  names-AlikePlugins (p ∷ ps) (q ∷ qs) (tag, ty, values, h) =
      rw (tag, ty, names-AlikePlugins ps qs h) refl
  names-AlikePlugins [] (q ∷ qs) h = absurd h
  names-AlikePlugins (p ∷ ps) [] h = absurd h

  -- The report does not tell configurations apart that have the same servers, and plugins of the same
  -- tags and types, if the upstreams of the forwarders have the same tags and each two have the same
  -- protocol, host and port, or no readable address: so no user, password, path, query or fragment of
  -- an address is shown, and no other setting of a plugin.
  pub system-AlikePlugins :
      (default : Option Text) (cfg cfg' : Config)
      → cfg.servers ≡ cfg'.servers
      → AlikePlugins cfg.plugins cfg'.plugins
      → system U default cfg ≡ system U default cfg'
  unfolding system
  system-AlikePlugins default cfg cfg' servers plugins =
      rw
        (
          servers,
          show_upstreams-AlikePlugins cfg.plugins cfg'.plugins plugins,
          names-AlikePlugins cfg.plugins cfg'.plugins plugins,
        )
        refl
