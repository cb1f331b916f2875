-- ===== src/Runtime/Live/Swaps.antt =====
-- runtime.rs and main.rs: when a reload is refused, and when it swaps the runtime.
use ferrumdns.Base.{
  ◌≡◌, ◌⊎◌, refl, sym, ap, ◌∙◌, arith, inl, inr, Bool-cases, Option-cases, Option, none, some, Text,
  subst, Result, ok, err, some-eq, Error, Bool, true, false,
}
use ferrumdns.Config.Load.{Files, load_file}
use ferrumdns.Config.Same.{
  servers_eq, servers_eq_sound, servers_eq_refl, api_eq, api_eq_sound, api_eq_refl, log_eq,
  log_eq_sound, log_eq_refl,
}
use ferrumdns.Config.Types.{Config}
use ferrumdns.Runtime.Build.{Runtime, Outside, build}
use ferrumdns.Runtime.Live.{swap_checked, Reloaded, reload_file}

contrary : {b : Bool} → b ≡ true → b ≡ false → ⊥
contrary h h' = ground arith

module _ {C S : Type 0} where
  -- The settings that need a restart.
  pub record SameSettings (rt rt' : Runtime C S) : Type 0 where
    pub servers : rt.config.servers ≡ rt'.config.servers
    pub api : rt.config.api ≡ rt'.config.api
    pub log : rt.config.log ≡ rt'.config.log

  -- Why a reload is refused: the file does not load, or no runtime is built of it, or one with
  -- other settings.
  pub data IsRefused (F : Files) (O : Outside) (path : Text) (rt : Runtime C S) : Type 0 where
    not_loaded : (e : Error) → load_file F path ≡ some (err e) → IsRefused F O path rt
    not_built :
        (cfg : Config) (e : Error)
        → load_file F path ≡ some (ok cfg)
        → ◌≡◌ {A = Option (Result (Runtime C S))} (build O cfg) (some (err e))
        → IsRefused F O path rt
    unlike :
        (cfg : Config) (new : Runtime C S)
        → load_file F path ≡ some (ok cfg)
        → build O cfg ≡ some (ok new)
        → ¬ (SameSettings rt new)
        → IsRefused F O path rt

  nothing : {x : Result (Unit {0}) × Runtime C S} → ◌≡◌ {A = Reloaded C S} none (some x) → ⊥
  nothing h = ground arith

  unchanged :
      {r r' : Result (Unit {0})} {rt rt' : Runtime C S}
      → ◌≡◌ {A = Reloaded C S} (some (r, rt)) (some (r', rt'))
      → rt ≡ rt'
  unchanged h = cc

  abbrev second_part : Result (Unit {0}) × Runtime C S → Runtime C S
  second_part x = x.1

  swap_checked-cases :
      (rt new : Runtime C S)
      → (((swap_checked rt new).1 ≡ rt) × ¬ (SameSettings rt new))
        ⊎ (((swap_checked rt new).1 ≡ new) × SameSettings rt new)
  unfolding swap_checked
  swap_checked-cases rt new = elim (Bool-cases (servers_eq rt.config.servers new.config.servers)) [
    | inr a ↦ inl (
      rw a refl,
      λ same.
          contrary (servers_eq_refl rt.config.servers)
            (ap (servers_eq rt.config.servers) same.servers ∙ a),
    )
    | inl a ↦ elim (Bool-cases (api_eq rt.config.api new.config.api)) [
      | inr b ↦ inl (
        rw (a, b) refl,
        λ same. contrary (api_eq_refl rt.config.api) (ap (api_eq rt.config.api) same.api ∙ b),
      )
      | inl b ↦ elim (Bool-cases (log_eq rt.config.log new.config.log)) [
        | inr c ↦ inl (
          rw (a, b, c) refl,
          λ same. contrary (log_eq_refl rt.config.log) (ap (log_eq rt.config.log) same.log ∙ c),
        )
        | inl c ↦ inr (
          rw (a, b, c) refl,
          record {
            servers = servers_eq_sound _ _ a;
            api = api_eq_sound _ _ b;
            log = log_eq_sound _ _ c;
          },
        )
      ]
    ]
  ]

  -- What is left of a reload that ends: the same runtime, or the one that is built of the file.
  pub reload_file-cases :
      (F : Files) (O : Outside) (path : Text) (rt : Runtime C S) (r : Result (Unit {0}))
      (rt' : Runtime C S)
      → reload_file F O path rt ≡ some (r, rt')
      → ((rt ≡ rt') × IsRefused F O path rt)
        ⊎ ((cfg : Config) × (load_file F path ≡ some (ok cfg))
            × (build O cfg ≡ some (ok rt'))
            × SameSettings rt rt')
  unfolding reload_file
  reload_file-cases F O path rt r rt' h = elim (Option-cases (load_file F path)) [
    | inl none_loaded ↦ absurd (nothing (rw none_loaded at h))
    | inr (err e, loaded) ↦ inl (unchanged (rw loaded at h), not_loaded e loaded)
    | inr (ok cfg, loaded) ↦
        let made : Option (Result (Runtime C S)) = build O cfg in
        elim (Option-cases made) [
          | inl none_built ↦ absurd (nothing (rw (loaded, none_built) at h))
          | inr (err e, bad) ↦ inl (unchanged (rw (loaded, bad) at h), not_built cfg e loaded bad)
          | inr (ok new, good) ↦
              let left : (swap_checked rt new).1 ≡ rt' =
                ap second_part (some-eq _ _ (rw (loaded, good) at h)) in
              elim (swap_checked-cases rt new) [
                | inl (kept, other) ↦ inl (sym kept ∙ left, unlike cfg new loaded good other)
                | inr (taken, same) ↦
                    let is : new ≡ rt' = sym taken ∙ left in
                    inr (
                      cfg,
                      loaded,
                      good ∙ ap (λ (x : Runtime C S). some (ok x)) is,
                      subst (SameSettings rt) is same,
                    )
              ]
        ]
  ]
