-- ===== src/Scheduler/Dispatch/Keys.antt =====
-- Which runs of a task exclude each other: those with one lock key.
use nimburion.Base.{
  ℕ, ◌≡◌, sym, ap, ◌∙◌, ◌↔◌, Text, codes, true, false, [], ◌∷◌, ◌++◌, some, ℤ, pos, ◌<ℤ◌, eq_text,
  show_ℤ, show_ℕ, read_digits, read-show_ℕ, arith,
}
use nimburion.Scheduler.Dispatch.{Task, misfire_skip, misfire_fire_once, due, unix, lock_key}

show_ℕ-injective : (m n : ℕ) → show_ℕ m ≡ show_ℕ n → m ≡ n
show_ℕ-injective m n h =
    let same : some m ≡ some n = sym (read-show_ℕ m) ∙ ap (read_digits 0) h ∙ read-show_ℕ n in cc

++-cancel : (s : Text) {t u : Text} → s ++ t ≡ s ++ u → t ≡ u
++-cancel [] h = h
++-cancel (c ∷ s) h = ++-cancel s cc

lock_key-injective :
    (t : Task) (a b : ℤ) (m n : ℕ)
    → unix a ≡ pos m
    → unix b ≡ pos n
    → lock_key t a ≡ lock_key t b
    → m ≡ n
unfolding lock_key show_ℤ
lock_key-injective t a b m n p q h =
    let tail = ++-cancel t.name (++-cancel (codes "scheduler:") h) in
    let shown : show_ℤ (unix a) ≡ show_ℤ (unix b) = cc in
    show_ℕ-injective m n (ap show_ℤ (sym p) ∙ shown ∙ ap show_ℤ q)

lock_key-same_second : (t : Task) (a b : ℤ) → unix a ≡ unix b → lock_key t a ≡ lock_key t b
unfolding lock_key
lock_key-same_second t a b e = ap (λ s. codes "scheduler:" ++ (t.name ++ b':' ∷ show_ℤ s)) e

due-late :
    (t : Task) (next_run a : ℤ)
    → t.misfire_policy ≡ misfire_fire_once
    → next_run <ℤ a
    → due t next_run a ≡ some a
unfolding due
due-late t next_run a f p =
    let no_skip : eq_text t.misfire_policy misfire_skip ≡ false =
      ap (λ s. eq_text s misfire_skip) f in
    let fires : eq_text t.misfire_policy misfire_fire_once ≡ true =
      ap (λ s. eq_text s misfire_fire_once) f in
    ground (arith, no_skip, fires, p)

-- Where a task fires once for what it missed, two schedulers that wake up behind the time of a run,
-- and since 1970, ask for the same lock exactly if they wake up in the same second.
pub due-lock_key_iff :
    (t : Task) (next_run a b : ℤ) (m n : ℕ)
    → t.misfire_policy ≡ misfire_fire_once
    → next_run <ℤ a
    → next_run <ℤ b
    → unix a ≡ pos m
    → unix b ≡ pos n
    → (due t next_run a ≡ some a)
      × (due t next_run b ≡ some b)
      × ((lock_key t a ≡ lock_key t b) ↔ (m ≡ n))
due-lock_key_iff t next_run a b m n f p q x y = (
  due-late t next_run a f p,
  due-late t next_run b f q,
  (lock_key-injective t a b m n x y, λ e. lock_key-same_second t a b (x ∙ ap pos e ∙ sym y)),
)
