-- ===== src/Config/Load/Loop.antt =====
-- config.rs: what holds of each configuration that a load gives, by the includes of its files.
use ferrumdns.Base.{
  ℕ, zero, suc, ◌+◌, ◌≤◌, ◌<◌, ◌≡◌, refl, arith, inl, inr, Bool-cases, none, some, List, [], ◌∷◌,
  Text, length, leb, Result, ok, err, ok_or, config, Gives, ok_or-eq,
}
use ferrumdns.Cache.Keys.{mem}
use ferrumdns.Config.Load.Includes.{Among, Includes, by_entry}
use ferrumdns.Config.Load.{
  Files, stamp_base, merge, max_include_depth, from_yaml, Loading, merge_includes, load_contents,
  load_with_stack, load_file, bind_load, bind_result, placed,
}
use ferrumdns.Config.Paths.{resolve_path}
use ferrumdns.Config.Types.{Config}

-- That a load ends, and what it gives when it succeeds.
abbrev pub Ends : (Config → Type 0) → Loading → Type 0
Ends P none = ⊥
Ends P (some r) = Gives P r

module _ (P : Config → Type 0) where
  bind_load-Ends :
      (Q : Config → Type 0) (l : Loading) (next : Config → Loading)
      → Ends Q l
      → ((cfg : Config) → Q cfg → Ends P (next cfg))
      → Ends P (bind_load l next)
  bind_load-Ends Q none next h k = h
  bind_load-Ends Q (some (err e)) next h k = tt
  bind_load-Ends Q (some (ok cfg)) next h k = k cfg h

  bind_result-Ends :
      {A : Type 0} (r : Result A) (next : A → Loading)
      → ((a : A) → r ≡ ok a → Ends P (next a))
      → Ends P (bind_result r next)
  bind_result-Ends (err e) next k = tt
  bind_result-Ends (ok a) next k = k a refl

-- A property that a file's contents have, and that is kept when an included file is merged.
module _ (F : Files) (P : Text → Config → Type 0)
    (starts : (path text : Text) (cfg : Config)
      → F.read path ≡ some text
      → from_yaml F text ≡ ok cfg
      → P path (placed F path cfg))
    (grows : (path other : Text) (cfg extra : Config)
      → Includes F path other
      → P path cfg
      → P other extra
      → P path (merge cfg extra)) where
  module _ (call : Text → Loading) (calls : (p : Text) → Ends (P p) (call p)) (path : Text) where
    merge_includes-Ends :
        (rels : List Text) (cfg : Config)
        → ((rel : Text) → Among rel rels → Includes F path (resolve_path cfg.base_dir rel))
        → P path cfg
        → Ends (P path) (merge_includes F call rels cfg)
    unfolding merge_includes merge
    merge_includes-Ends [] cfg inc h = h
    merge_includes-Ends (rel ∷ rels) cfg inc h =
        let other = resolve_path cfg.base_dir rel in
        bind_load-Ends (P path) (P other) (call other) _ (calls other) λ extra r.
          merge_includes-Ends rels (merge cfg extra) (λ rel' among. inc rel' (inr among))
            (grows path other cfg extra (inc rel (inl refl)) h r)

    load_contents-Ends : Ends (P path) (load_contents F call path)
    unfolding load_contents stamp_base
    load_contents-Ends =
        bind_result-Ends (P path) (ok_or (F.read path) (config "read")) _ λ text found.
          bind_result-Ends (P path) (from_yaml F text) _ λ cfg parsed.
            let read_is : F.read path ≡ some text = ok_or-eq _ (config "read") found in
            merge_includes-Ends cfg.include (placed F path cfg)
              (λ rel among. by_entry text rel cfg read_is parsed among refl)
              (starts path text cfg read_is parsed)

  load_with_stack-Ends :
      (fuel : ℕ) (path : Text) (stack : List Text)
      → max_include_depth < fuel + length stack
      → length stack ≤ max_include_depth
      → Ends (P path) (load_with_stack F fuel path stack)
  unfolding load_with_stack
  load_with_stack-Ends zero path stack enough le = absurd (omega arith)
  load_with_stack-Ends (suc fuel) path stack enough le =
      elim (Bool-cases (leb max_include_depth (length stack))) [
        | inl deep ↦ rw (deep, Ends) tt
        | inr fits ↦
            rw (fits, Ends)
              (bind_result-Ends (P path) (ok_or (F.canonicalize path) (config "resolve")) _
                λ canonical _. elim (Bool-cases (mem canonical stack)) [
                  | inl cycle ↦ rw (cycle, Ends) tt
                  | inr new ↦
                      rw (new, Ends)
                        (load_contents-Ends (λ p. load_with_stack F fuel p (canonical ∷ stack))
                          (λ p.
                            load_with_stack-Ends fuel p (canonical ∷ stack) (omega arith)
                              (ground arith))
                          path)
                ])
      ]

  pub load_file-Ends : (path : Text) → Ends (P path) (load_file F path)
  unfolding load_file
  load_file-Ends path =
      load_with_stack-Ends (suc max_include_depth) path [] (omega arith) (omega arith)
