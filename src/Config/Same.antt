-- ===== src/Config/Same.antt =====
-- config.rs: the derived equality of the settings that a reload must not change.
use ferrumdns.Base.{
  ℕ, ◌≡◌, refl, ap, arith, Bool, true, false, ◌&&◌, Option, none, some, List, [], ◌∷◌, Text, teq,
  teq_iff, teq_refl, ◌==◌, ==_iff,
}
use ferrumdns.Config.Types.{LogConfig, ListenerConfig, ServerConfig, ApiConfig}

module _ {ℓ} {A : Type ℓ} (eq : A → A → Bool) where
  unfoldable pub option_eq : Option A → Option A → Bool
  option_eq none none = true
  option_eq (some a) (some b) = eq a b
  option_eq _ _ = false

  unfoldable pub list_eq : List A → List A → Bool
  list_eq [] [] = true
  list_eq (a ∷ as') (b ∷ bs) = eq a b && list_eq as' bs
  list_eq _ _ = false

  module _ (sound : (a b : A) → eq a b ≡ true → a ≡ b) where
    option_eq_sound : (a b : Option A) → option_eq a b ≡ true → a ≡ b
    unfolding option_eq
    option_eq_sound none none h = refl
    option_eq_sound none (some b) h = absurd (ground arith)
    option_eq_sound (some a) none h = absurd (ground arith)
    option_eq_sound (some a) (some b) h = ap some (sound a b h)

    list_eq_sound : (l m : List A) → list_eq l m ≡ true → l ≡ m
    unfolding list_eq
    list_eq_sound [] [] h = refl
    list_eq_sound [] (b ∷ m) h = absurd (ground arith)
    list_eq_sound (a ∷ l) [] h = absurd (ground arith)
    list_eq_sound (a ∷ l) (b ∷ m) h =
        ground (arith, sound a b (ground arith), list_eq_sound l m (ground arith))

nat_eq : ℕ → ℕ → Bool
nat_eq a b = a == b

teq_sound : (s t : Text) → teq s t ≡ true → s ≡ t
teq_sound s t h = (teq_iff s t).0 h

nat_eq_sound : (a b : ℕ) → nat_eq a b ≡ true → a ≡ b
unfolding nat_eq
nat_eq_sound a b h = (==_iff a b).0 h

unfoldable pub listener_eq : ListenerConfig → ListenerConfig → Bool
unfolding option_eq nat_eq teq
listener_eq l m =
    teq l.protocol m.protocol
    && teq l.addr m.addr
    && option_eq teq l.cert m.cert
    && option_eq teq l.key m.key
    && option_eq teq l.url_path m.url_path
    && option_eq nat_eq l.idle_timeout m.idle_timeout
    && option_eq nat_eq l.workers m.workers

unfoldable pub server_eq : ServerConfig → ServerConfig → Bool
unfolding listener_eq list_eq teq
server_eq s t =
    teq s.exec t.exec && s.timeout == t.timeout && list_eq listener_eq s.listeners t.listeners

unfoldable pub servers_eq : List ServerConfig → List ServerConfig → Bool
unfolding server_eq list_eq
servers_eq l m = list_eq server_eq l m

unfoldable pub api_eq : ApiConfig → ApiConfig → Bool
unfolding option_eq teq
api_eq a b = option_eq teq a.http b.http

unfoldable pub log_eq : LogConfig → LogConfig → Bool
unfolding option_eq teq
log_eq a b = teq a.level b.level && option_eq teq a.file b.file

and-split : (a b : Bool) → (a && b) ≡ true → (a ≡ true) × (b ≡ true)
and-split true true h = (refl, refl)
and-split true false h = absurd (ground arith)
and-split false b h = absurd (ground arith)

listener_eq_sound : (l m : ListenerConfig) → listener_eq l m ≡ true → l ≡ m
unfolding listener_eq
listener_eq_sound l m h =
    let (h1, g) = and-split _ (option_eq nat_eq l.workers m.workers) h in
    let (h2, f) = and-split _ (option_eq nat_eq l.idle_timeout m.idle_timeout) h1 in
    let (h3, e) = and-split _ (option_eq teq l.url_path m.url_path) h2 in
    let (h4, d) = and-split _ (option_eq teq l.key m.key) h3 in
    let (h5, c) = and-split _ (option_eq teq l.cert m.cert) h4 in
    let (a, b) = and-split (teq l.protocol m.protocol) (teq l.addr m.addr) h5 in
    cc (
      teq_sound l.protocol m.protocol a,
      teq_sound l.addr m.addr b,
      option_eq_sound teq teq_sound l.cert m.cert c,
      option_eq_sound teq teq_sound l.key m.key d,
      option_eq_sound teq teq_sound l.url_path m.url_path e,
      option_eq_sound nat_eq nat_eq_sound l.idle_timeout m.idle_timeout f,
      option_eq_sound nat_eq nat_eq_sound l.workers m.workers g,
    )

server_eq_sound : (s t : ServerConfig) → server_eq s t ≡ true → s ≡ t
unfolding server_eq
server_eq_sound s t h =
    let (h1, c) = and-split _ (list_eq listener_eq s.listeners t.listeners) h in
    let (a, b) = and-split (teq s.exec t.exec) (s.timeout == t.timeout) h1 in
    cc (
      teq_sound s.exec t.exec a,
      (==_iff s.timeout t.timeout).0 b,
      list_eq_sound listener_eq listener_eq_sound s.listeners t.listeners c,
    )

pub servers_eq_sound : (l m : List ServerConfig) → servers_eq l m ≡ true → l ≡ m
unfolding servers_eq
servers_eq_sound l m h = list_eq_sound server_eq server_eq_sound l m h

pub api_eq_sound : (a b : ApiConfig) → api_eq a b ≡ true → a ≡ b
unfolding api_eq
api_eq_sound a b h = cc (option_eq_sound teq teq_sound a.http b.http h)

pub log_eq_sound : (a b : LogConfig) → log_eq a b ≡ true → a ≡ b
unfolding log_eq
log_eq_sound a b h =
    let (level, file) = and-split (teq a.level b.level) _ h in
    cc (teq_sound a.level b.level level, option_eq_sound teq teq_sound a.file b.file file)

module _ {ℓ} {A : Type ℓ} (eq : A → A → Bool) (refl_eq : (a : A) → eq a a ≡ true) where
  option_eq_refl : (o : Option A) → option_eq eq o o ≡ true
  unfolding option_eq
  option_eq_refl none = refl
  option_eq_refl (some a) = refl_eq a

  list_eq_refl : (l : List A) → list_eq eq l l ≡ true
  unfolding list_eq
  list_eq_refl [] = refl
  list_eq_refl (a ∷ l) = rw (list_eq, refl_eq a, list_eq_refl l) refl

nat_eq_refl : (n : ℕ) → nat_eq n n ≡ true
unfolding nat_eq
nat_eq_refl n = (==_iff n n).1 refl

listener_eq_refl : (l : ListenerConfig) → listener_eq l l ≡ true
unfolding listener_eq
listener_eq_refl l =
    rw
      (
        teq_refl l.protocol,
        teq_refl l.addr,
        option_eq_refl teq teq_refl l.cert,
        option_eq_refl teq teq_refl l.key,
        option_eq_refl teq teq_refl l.url_path,
        option_eq_refl nat_eq nat_eq_refl l.idle_timeout,
        option_eq_refl nat_eq nat_eq_refl l.workers,
      )
      refl

server_eq_refl : (s : ServerConfig) → server_eq s s ≡ true
unfolding server_eq
server_eq_refl s =
    rw
      (
        teq_refl s.exec,
        (==_iff s.timeout s.timeout).1 refl,
        list_eq_refl listener_eq listener_eq_refl s.listeners,
      )
      refl

pub servers_eq_refl : (l : List ServerConfig) → servers_eq l l ≡ true
unfolding servers_eq
servers_eq_refl l = list_eq_refl server_eq server_eq_refl l

pub api_eq_refl : (a : ApiConfig) → api_eq a a ≡ true
unfolding api_eq
api_eq_refl a = option_eq_refl teq teq_refl a.http

pub log_eq_refl : (a : LogConfig) → log_eq a a ≡ true
unfolding log_eq
log_eq_refl a = rw (teq_refl a.level, option_eq_refl teq teq_refl a.file) refl
