-- ===== src/Config/Load/Includes.antt =====
-- config.rs: chains of includes in a configuration that loads.
use ferrumdns.Base.{
  ℕ, zero, suc, ◌+◌, ◌<◌, ◌≡◌, ◌≢◌, ◌⊎◌, refl, sym, ap, ◌∙◌, arith, inl, inr, Bool-cases, true,
  false, none, some, some-eq, List, [], ◌∷◌, Text, teq_refl, length, leb, if◌then◌else◌, Result, ok,
  err, ok_or, config, subst, ok-eq, ok_or-eq, Error,
}
use ferrumdns.Cache.Keys.{mem}
use ferrumdns.Config.Load.{
  Files, parent, base_of, placed, merge, max_include_depth, from_yaml, Loading, bind_load,
  stamp_base, bind_result, merge_includes, load_contents, load_with_stack, load_file,
}
use ferrumdns.Config.Paths.{resolve_path}
use ferrumdns.Config.Types.{Config}

abbrev pub Among : {A : Type 0} → A → List A → Type 0
Among a [] = ⊥
Among a (b ∷ l) = (b ≡ a) ⊎ Among a l

-- The file at `path` includes the one at `other`.
pub data Includes (F : Files) (path other : Text) : Type 0 where
  by_entry :
      (text rel : Text) (cfg : Config)
      → F.read path ≡ some text
      → from_yaml F text ≡ ok cfg
      → Among rel cfg.include
      → resolve_path (base_of (parent path)) rel ≡ other
      → Includes F path other

-- A chain of includes, with their number.
pub data Chain (F : Files) : Text → Text → ℕ → Type 0 where
  here : (p : Text) → Chain F p p 0
  step : {p q r : Text} {n : ℕ} → Includes F p q → Chain F q r n → Chain F p r (suc n)

abbrev Loads : Loading → Type 0
Loads l = (cfg : Config) × (l ≡ some (ok cfg))

bind_load-Loads :
    (l : Loading) (next : Config → Loading)
    → Loads (bind_load l next)
    → (cfg : Config) × (l ≡ some (ok cfg)) × Loads (next cfg)
bind_load-Loads none next (cfg, h) = absurd (ground arith)
bind_load-Loads (some (err e)) next (cfg, h) = absurd (ground arith)
bind_load-Loads (some (ok extra)) next h = (extra, refl, h)

bind_result-Loads :
    {A : Type 0} (r : Result A) (next : A → Loading)
    → Loads (bind_result r next)
    → (a : A) × (r ≡ ok a) × Loads (next a)
bind_result-Loads (err e) next (cfg, h) = absurd (ground arith)
bind_result-Loads (ok a) next h = (a, refl, h)

refused : {e : Error} → Loads (some (err e)) → ⊥
refused (cfg, h) = ground arith

itself : (c : Text) → mem c (c ∷ []) ≡ true
itself c = ground (arith, teq_refl c)

no_fuel : {r : Result Config} → ◌≡◌ {A = Loading} none (some r) → ⊥
no_fuel h = ground arith

module _ (F : Files) where
  merge_includes-Loads :
      (call : Text → Loading) (rels : List Text) (cfg : Config) (rel : Text)
      → Loads (merge_includes F call rels cfg)
      → Among rel rels
      → Loads (call (resolve_path cfg.base_dir rel))
  unfolding merge_includes merge
  merge_includes-Loads call [] cfg rel h among = absurd among
  merge_includes-Loads call (r ∷ rels) cfg rel h (inl same) =
      let (extra, loaded, _) = bind_load-Loads (call (resolve_path cfg.base_dir r)) _ h in
      (extra, ap (λ x. call (resolve_path cfg.base_dir x)) (sym same) ∙ loaded)
  merge_includes-Loads call (r ∷ rels) cfg rel h (inr later) =
      let (extra, _, rest) = bind_load-Loads (call (resolve_path cfg.base_dir r)) _ h in
      merge_includes-Loads call rels (merge cfg extra) rel rest later

  included :
      (call : Text → Loading) (path : Text) (cfg : Config) (rel : Text)
      → Loads (merge_includes F call cfg.include (placed F path cfg))
      → Among rel cfg.include
      → Loads (call (resolve_path (base_of (parent path)) rel))
  unfolding stamp_base
  included call path cfg rel h among =
      merge_includes-Loads call cfg.include (placed F path cfg) rel h among

  load_contents-Loads :
      (call : Text → Loading) (path other : Text)
      → Loads (load_contents F call path)
      → Includes F path other
      → Loads (call other)
  unfolding load_contents
  load_contents-Loads call path other h (by_entry text rel cfg read parsed among same) =
      let (text', e, h1) = bind_result-Loads (ok_or (F.read path) (config "read")) _ h in
      let (cfg', e', h2) = bind_result-Loads (from_yaml F text') _ h1 in
      let text_same : text' ≡ text =
        some-eq text' text (sym (ok_or-eq _ (config "read") e) ∙ read) in
      let cfg_same : cfg' ≡ cfg = ok-eq (sym e' ∙ ap (from_yaml F) text_same ∙ parsed) in
      subst (λ p. Loads (call p)) same
        (included call path cfg rel
          (subst (λ (c : Config). Loads (merge_includes F call c.include (placed F path c)))
            cfg_same h2)
          among)

  opened :
      (fuel : ℕ) (path : Text) (stack : List Text) (c : Text)
      → Loads (
          if mem c stack
          then some (err (config "include cycle"))
          else load_contents F (λ p. load_with_stack F fuel p (c ∷ stack)) path)
      → (mem c stack ≡ false)
        × ((other : Text)
            → Includes F path other
            → Loads (load_with_stack F fuel other (c ∷ stack)))
  opened fuel path stack c h = elim (Bool-cases (mem c stack)) [
    | inl cycle ↦ absurd (refused (rw cycle at h))
    | inr new ↦ (
      new,
      λ other.
          load_contents-Loads (λ p. load_with_stack F fuel p (c ∷ stack)) path other (rw new at h),
    )
  ]

  -- What is known of a file that is loaded, and of those that it includes.
  load_with_stack-Loads :
      (fuel : ℕ) (path : Text) (stack : List Text)
      → Loads (load_with_stack F (suc fuel) path stack)
      → (length stack < max_include_depth)
        × (c : Text) × (F.canonicalize path ≡ some c)
        × (mem c stack ≡ false)
        × ((other : Text)
            → Includes F path other
            → Loads (load_with_stack F fuel other (c ∷ stack)))
  unfolding load_with_stack
  load_with_stack-Loads fuel path stack h =
      elim (Bool-cases (leb max_include_depth (length stack))) [
        | inl deep ↦ absurd (refused (rw deep at h))
        | inr fits ↦
            let (c, e, h1) =
              bind_result-Loads (ok_or (F.canonicalize path) (config "resolve")) _ (rw fits at h) in
            let (new, next) = opened fuel path stack c h1 in
            (ground arith, c, ok_or-eq _ (config "resolve") e, new, next)
      ]

  zero-Loads : (p : Text) (stack : List Text) → Loads (load_with_stack F zero p stack) → ⊥
  unfolding load_with_stack
  zero-Loads p stack (cfg, h) = no_fuel h

  -- Along a chain from a file that loads, the stack grows, and the canonical paths on it are met by
  -- no file.
  chain-Loads :
      (fuel : ℕ) {p q : Text} {n : ℕ} (stack : List Text) (c : Text)
      → Loads (load_with_stack F fuel p stack)
      → mem c stack ≡ true
      → Chain F p q n
      → (length stack + n < max_include_depth) × (F.canonicalize q ≢ some c)
  chain-Loads zero {p = p} stack c loads m chain = absurd (zero-Loads p stack loads)
  chain-Loads (suc fuel) stack c h m (here p) =
      let (lt, d, e, new, _) = load_with_stack-Loads fuel p stack h in
      (omega arith, λ same. absurd (ground (arith, some-eq d c (sym e ∙ same))))
  chain-Loads (suc fuel) {p = p} stack c h m (step {q = q} inc rest) =
      let (lt, d, e, new, next) = load_with_stack-Loads fuel p stack h in
      let (lt', other) = chain-Loads fuel (d ∷ stack) c (next q inc) (ground arith) rest in
      (omega arith, other)

-- When a file loads, every chain of includes that starts at it has fewer than 64 includes, and comes
-- to no file with the canonical path of the first one; such a path the first file has.
pub load_file-Chain :
    (F : Files) (p q : Text) (cfg : Config) {n : ℕ}
    → load_file F p ≡ some (ok cfg)
    → Chain F p q (suc n)
    → (suc n < max_include_depth)
      × (F.canonicalize q ≢ F.canonicalize p)
      × (c : Text) × (F.canonicalize p ≡ some c)
unfolding load_file
load_file-Chain F p q cfg h (step {q = r} inc rest) =
    let (lt, c, e, new, next) = load_with_stack-Loads F max_include_depth p [] (cfg, h) in
    let (lt', other) = chain-Loads F max_include_depth (c ∷ []) c (next r inc) (itself c) rest in
    (omega arith, λ same. other (same ∙ e), c, e)
