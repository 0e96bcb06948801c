-- ===== src/Checkout/Rules.antt =====
-- Rules for the programs of the checkout (crates/sync-core/src/checkout.rs): what holds of the files
-- wherever a program ends, with and without faults.
use codex_session_sync.Prelude.{
  Bool, [], is_some, refl, true, ◌≡◌, nat_eq, string_eq, option_eq, list_eq,
}
use codex_session_sync.Checkout.Journal.{FilePath}
use codex_session_sync.Checkout.World.{
  stopped, failed, done, Action, exists, Run, give, Files, World, ◌>>=◌,
}

abbrev pub Ends : {A : Type 0} → (A → World → Type 0) → (World → Type 0) → Run A → Type 0
Ends Q R (done a w) = Q a w
Ends Q R (failed e w) = R w
Ends Q R (stopped w) = R w

-- All but the files and the fates is as in the world `r`, and the files are as the predicate says. A quiet
-- run has no fault before it.
pub record At (quiet : Bool) (r : World) (F : Files → Type 0) (w : World) : Type 0 where
  pub saved : w.saved ≡ r.saved
  pub unsaved : w.unsaved ≡ r.unsaved
  pub held : w.held ≡ r.held
  pub tracking : w.tracking ≡ r.tracking
  pub files : F w.files
  pub calm : quiet ≡ true → w.fates ≡ []

-- The same, where the run was broken off, as a quiet run never is.
pub record Left (quiet : Bool) (r : World) (F : Files → Type 0) (w : World) : Type 0 where
  pub saved : w.saved ≡ r.saved
  pub unsaved : w.unsaved ≡ r.unsaved
  pub held : w.held ≡ r.held
  pub tracking : w.tracking ≡ r.tracking
  pub files : F w.files
  pub broken : quiet ≡ true → ⊥

-- From files as `F` says, the program ends with a result and files as `G` says, or breaks off with files
-- as `H` says.
pub record Triple (quiet : Bool) (r : World) {A : Type 0} (F : Files → Type 0) (m : Action A)
    (G : A → Files → Type 0) (H : Files → Type 0) : Type 0 where
  pub ends : (w : World) → At quiet r F w → Ends (λ a. At quiet r (G a)) (Left quiet r H) (m w)

module _ {quiet : Bool} {r : World} where
  bind_end :
      {A B : Type 0} {H : Files → Type 0} {G : A → Files → Type 0} {K : B → Files → Type 0}
      (run : Run A) (k : A → Action B)
      → Ends (λ a. At quiet r (G a)) (Left quiet r H) run
      → ((a : A) → Triple quiet r (G a) (k a) K H)
      → Ends
          (λ b. At quiet r (K b))
          (Left quiet r H)
          (elim run [ done a v ↦ k a v | failed e v ↦ failed e v | stopped v ↦ stopped v ])
  bind_end (done a v) k h next = (next a).ends v h
  bind_end (failed e v) k h next = h
  bind_end (stopped v) k h next = h

  pub bind_rule :
      {A B : Type 0} {F H : Files → Type 0} {G : A → Files → Type 0} {K : B → Files → Type 0}
      {m : Action A} {k : A → Action B}
      → Triple quiet r F m G H
      → ((a : A) → Triple quiet r (G a) (k a) K H)
      → Triple quiet r F (m >>= k) K H
  unfolding ◌>>=◌
  bind_rule {m} {k} first next = record { ends = λ w h. bind_end (m w) k (first.ends w h) next }

  pub weaken :
      {F G : Files → Type 0} {w : World}
      → ((f : Files) → F f → G f)
      → At quiet r F w
      → At quiet r G w
  weaken {w} g a = record {
    saved = a.saved;
    unsaved = a.unsaved;
    held = a.held;
    tracking = a.tracking;
    files = g w.files a.files;
    calm = a.calm;
  }

  pub leave :
      {F G : Files → Type 0} {w : World}
      → ((f : Files) → F f → G f)
      → Left quiet r F w
      → Left quiet r G w
  leave {w} g a = record {
    saved = a.saved;
    unsaved = a.unsaved;
    held = a.held;
    tracking = a.tracking;
    files = g w.files a.files;
    broken = a.broken;
  }

pub end_rule :
    (quiet : Bool) (r : World) {A : Type 0} {G G' : A → Files → Type 0} {H H' : Files → Type 0}
    (run : Run A)
    → ((a : A) (f : Files) → G a f → G' a f)
    → ((f : Files) → H f → H' f)
    → Ends (λ a. At quiet r (G a)) (Left quiet r H) run
    → Ends (λ a. At quiet r (G' a)) (Left quiet r H') run
end_rule quiet r (done a v) g h e = weaken (g a) e
end_rule quiet r (failed x v) g h e = leave h e
end_rule quiet r (stopped v) g h e = leave h e

module _ {quiet : Bool} {r : World} where
  -- A weaker start, and a weaker end of each kind.
  pub consequence :
      {A : Type 0} {F F' H H' : Files → Type 0} {G G' : A → Files → Type 0} {m : Action A}
      → ((f : Files) → F' f → F f)
      → ((a : A) (f : Files) → G a f → G' a f)
      → ((f : Files) → H f → H' f)
      → Triple quiet r F m G H
      → Triple quiet r F' m G' H'
  consequence {m} start g h t = record {
    ends = λ w a. end_rule quiet r (m w) g h (t.ends w (weaken start a));
  }

  pub give_rule :
      {A : Type 0} {F H : Files → Type 0} {G : A → Files → Type 0} (a : A)
      → ((f : Files) → F f → G a f)
      → Triple quiet r F (give a) G H
  unfolding give
  give_rule a g = record { ends = λ w h. weaken g h }

  pub exists_rule :
      {F H : Files → Type 0} {p : FilePath}
      → Triple quiet r F (exists p) (λ b f. F f × (is_some (f p) ≡ b)) H
  unfolding exists
  exists_rule = record {
    ends = λ w h. record {
      saved = h.saved;
      unsaved = h.unsaved;
      held = h.held;
      tracking = h.tracking;
      files = (h.files, refl);
      calm = h.calm;
    };
  }
