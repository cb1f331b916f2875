-- ===== src/Runtime/Build/Growth.antt =====
-- runtime.rs: the loop over the plugins forgets none of them.
use ferrumdns.Base.{
  ◌≡◌, refl, arith, inl, inr, Bool-cases, Bool, true, false, ◌||◌, some, List, [], ◌∷◌, ◌++◌, Text,
  teq, teq_refl, any, any-append, filter, All, subst, ok, >>=-eq-ok, ok-eq,
}
use ferrumdns.Config.Types.{PluginConfig}
use ferrumdns.Fallback
use ferrumdns.Matcher.DomainSet
use ferrumdns.Matcher.Eval
use ferrumdns.Actions.Redirect
use ferrumdns.Ecs.Attach
use ferrumdns.Forward.Setup
use ferrumdns.Hosts
use ferrumdns.Runtime.Build.{
  Executable, hosts, forward, redirect, ecs, of_domain_set, of_ip_set, of_cache, of_hosts,
  of_forward, of_black_hole, of_redirect, of_ecs, of_no_ecs, of_sequence, of_fallback, unknown_type,
  Building, Outside, PluginType, plugin_type, with_exec, add_plugin, add_plugins,
}
use ferrumdns.Fallback.{Fallback}
use ferrumdns.Yaml.{Value}
use ferrumdns.Runtime.Graph.{find, tag_of}

-- Whether a key is there.
abbrev pub has {ℓ} : {A : Type ℓ} → Text → List (Text × A) → Bool
has key m = any (λ e. teq e.0 key) m

pub find-has {ℓ} :
    {A : Type ℓ} (key : Text) (m : List (Text × A))
    → has key m ≡ true
    → (v : A) × (find key m ≡ some v)
unfolding find
find-has key [] h = absurd (ground arith)
find-has key ((k, v) ∷ m) h = elim (Bool-cases (teq k key)) [
  | inl same ↦ rw same (v, refl)
  | inr other ↦ rw other (find-has key m (rw other at h))
]

-- The plugins of the registry: all but the sets.
abbrev pub is_executable : PluginType → Bool
is_executable of_domain_set = false
is_executable of_ip_set = false
is_executable _ = true

abbrev pub executables : List PluginConfig → List PluginConfig
executables ps = filter (λ (p : PluginConfig). is_executable (plugin_type p.ty)) ps

pub has-append {ℓ} :
    {A : Type ℓ} (key : Text) (m n : List (Text × A)) → has key (m ++ n) ≡ has key m || has key n
has-append key m n = any-append (λ e. teq e.0 key) m n

module _ (O : Outside) {C S : Type 0} where
  abbrev pub known : Text → Building C S → Bool
  known k b = has k b.execs || has k b.pending_seq || has k b.pending_fb

  -- A plugin was added, and none is forgotten.
  record Grows (p : PluginConfig) (b b' : Building C S) : Type 0 where
    keeps : (k : Text) → known k b ≡ true → known k b' ≡ true
    adds : known (tag_of p) b' ≡ true

  exec-Grows :
      (p : PluginConfig) (e : Executable C S) (b : Building C S)
      → Grows p b (with_exec O (tag_of p) e b)
  exec-Grows p e b = record { keeps = λ k h. ground arith; adds = rw (teq_refl (tag_of p)) refl }

  seq-Grows :
      (p : PluginConfig) (args : Value) (b : Building C S)
      → Grows p b (record b { pending_seq = b.pending_seq ++ (tag_of p, args) ∷ [] })
  seq-Grows p args b = record {
    keeps = λ k h. ground (arith, has-append k b.pending_seq ((tag_of p, args) ∷ []));
    adds =
        ground
          (arith, has-append (tag_of p) b.pending_seq ((tag_of p, args) ∷ []), teq_refl (tag_of p));
  }

  fb-Grows :
      (p : PluginConfig) (f : Fallback) (b : Building C S)
      → Grows p b (record b { pending_fb = b.pending_fb ++ (tag_of p, f) ∷ [] })
  fb-Grows p f b = record {
    keeps = λ k h. ground (arith, has-append k b.pending_fb ((tag_of p, f) ∷ []));
    adds =
        ground
          (arith, has-append (tag_of p) b.pending_fb ((tag_of p, f) ∷ []), teq_refl (tag_of p));
  }

  Kept : PluginType → PluginConfig → Building C S → Building C S → Type 0
  Kept ty p b b' =
      ((k : Text) → known k b ≡ true → known k b' ≡ true)
      × (is_executable ty ≡ true → known (tag_of p) b' ≡ true)

  from_Grows :
      (ty : PluginType) (p : PluginConfig) (b b' b'' : Building C S)
      → Grows p b b'
      → ok b' ≡ ok b''
      → Kept ty p b b''
  unfolding Kept
  from_Grows ty p b b' b'' g e = subst (λ x. Kept ty p b x) (ok-eq e) (g.keeps, λ _. g.adds)

  add_plugin-Kept :
      (ty : PluginType) (p : PluginConfig) (b b' : Building C S)
      → add_plugin O ty p b ≡ ok b'
      → Kept ty p b b'
  unfolding add_plugin Kept
  add_plugin-Kept of_domain_set p b b' h =
      let (set, _, e) = >>=-eq-ok (DomainSet.from_args O.regexes O.read p.args p.base_dir) _ h in
      subst (λ x. Kept of_domain_set p b x) (ok-eq e) (λ k m. m, λ x. cc)
  add_plugin-Kept of_ip_set p b b' h =
      let (set, _, e) = >>=-eq-ok (Eval.from_args O.networks O.read p.args p.base_dir) _ h in
      subst (λ x. Kept of_ip_set p b x) (ok-eq e) (λ k m. m, λ x. cc)
  add_plugin-Kept of_cache p b b' h =
      from_Grows of_cache p b _ b'
        (record { keeps = λ k m. ground arith; adds = rw (teq_refl (tag_of p)) refl }) h
  add_plugin-Kept of_hosts p b b' h =
      let (x, _, e) =
        >>=-eq-ok (Hosts.from_args O.hickory O.networks (tag_of p) O.read p.args p.base_dir) _ h in
      from_Grows of_hosts p b _ b' (exec-Grows p (hosts x) b) e
  add_plugin-Kept of_forward p b b' h =
      let (x, _, e) = >>=-eq-ok (Setup.from_args {C = C} {S = S} O.builds (tag_of p) p.args) _ h in
      from_Grows of_forward p b _ b' (exec-Grows p (forward x) b) e
  add_plugin-Kept of_black_hole p b b' h = from_Grows of_black_hole p b _ b' (exec-Grows p _ b) h
  add_plugin-Kept of_redirect p b b' h =
      let (x, _, e) = >>=-eq-ok (Redirect.from_args O.hickory p.args) _ h in
      from_Grows of_redirect p b _ b' (exec-Grows p (redirect x) b) e
  add_plugin-Kept of_ecs p b b' h =
      let (x, _, e) = >>=-eq-ok (Attach.from_args O.networks (tag_of p) p.args) _ h in
      from_Grows of_ecs p b _ b' (exec-Grows p (ecs x) b) e
  add_plugin-Kept of_no_ecs p b b' h = from_Grows of_no_ecs p b _ b' (exec-Grows p _ b) h
  add_plugin-Kept of_sequence p b b' h = from_Grows of_sequence p b _ b' (seq-Grows p p.args b) h
  add_plugin-Kept of_fallback p b b' h =
      let (x, _, e) = >>=-eq-ok (Fallback.from_args (tag_of p) p.args) _ h in
      from_Grows of_fallback p b _ b' (fb-Grows p x b) e
  add_plugin-Kept unknown_type p b b' h = absurd (ground arith)

  add_plugins-keeps :
      (ps : List PluginConfig) (b b' : Building C S)
      → add_plugins O ps b ≡ ok b'
      → (k : Text) → known k b ≡ true
      → known k b' ≡ true
  unfolding add_plugins Kept
  add_plugins-keeps [] b b' h k m = subst (λ x. known k x ≡ true) (ok-eq h) m
  add_plugins-keeps (p ∷ ps) b b' h k m =
      let (b1, e, rest) = >>=-eq-ok (add_plugin O (plugin_type p.ty) p b) _ h in
      add_plugins-keeps ps b1 b' rest k ((add_plugin-Kept (plugin_type p.ty) p b b1 e).0 k m)

  pub add_plugins-known :
      (ps : List PluginConfig) (b b' : Building C S)
      → add_plugins O ps b ≡ ok b'
      → All (λ (p : PluginConfig). known (tag_of p) b' ≡ true) (executables ps)
  unfolding add_plugins Kept
  add_plugins-known [] b b' h = tt
  add_plugins-known (p ∷ ps) b b' h =
      let (b1, e, rest) = >>=-eq-ok (add_plugin O (plugin_type p.ty) p b) _ h in
      let later = add_plugins-known ps b1 b' rest in
      elim (Bool-cases (is_executable (plugin_type p.ty))) [
        | inr set ↦ rw set later
        | inl exec ↦ rw exec (
          add_plugins-keeps ps b1 b' rest (tag_of p)
              ((add_plugin-Kept (plugin_type p.ty) p b b1 e).1 exec),
          later,
        )
      ]
