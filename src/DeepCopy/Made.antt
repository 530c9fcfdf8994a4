-- ===== src/DeepCopy/Made.antt =====
-- Actions that allocate: what they make lies in the blocks that were free before them, and all
-- other blocks stay as they are.
use node_updater.Base.{ℕ, ◌≤◌, ◌<◌, ◌≡◌, refl, ◌∙◌, none, some, arith}
use node_updater.DeepCopy.Blocks.{Memory, Mem, pure, ◌>>=◌}

module _ {Meta : Type 0} where
  -- Nothing lies at the free addresses.
  pub record IsMemory (h : Memory Meta) : Type 0 where
    pub free : (p : ℕ) → h.next ≤ p → h.cell p ≡ none

  -- The blocks below the address are the same.
  abbrev pub SameBelow : ℕ → Memory Meta → Memory Meta → Type 0
  SameBelow n h g = (p : ℕ) → p < n → g.cell p ≡ h.cell p

  -- The second memory has all blocks of the first.
  pub record Extends (h g : Memory Meta) : Type 0 where
    pub good : IsMemory h
    pub same : SameBelow h.next h g

  -- The blocks from one address up to another are the same.
  abbrev pub SameWithin : ℕ → ℕ → Memory Meta → Memory Meta → Type 0
  SameWithin lo hi h g = (p : ℕ) → lo ≤ p → p < hi → g.cell p ≡ h.cell p

  -- The action returns without a fault and keeps the blocks below `n`, and what it returns satisfies
  -- `Q` in any memory that has the same blocks between `n` and the end.
  pub record Makes {A : Type 0} (n : ℕ) (m : Mem Meta A) (h : Memory Meta)
      (Q : A → Memory Meta → Type 0) : Type 0 where
    pub result : A
    pub after : Memory Meta
    pub runs : m h ≡ some (result, after)
    pub sound : IsMemory after
    pub grows : h.next ≤ after.next
    pub keeps : SameBelow n h after
    pub owns : (g : Memory Meta) → SameWithin n after.next after g → Q result g

  pub Makes-bind :
      {A B : Type 0} {m : Mem Meta A} {h : Memory Meta} {Q : A → Memory Meta → Type 0}
      (f : A → Mem Meta B) (R : A → B → Memory Meta → Type 0) (S : B → Memory Meta → Type 0)
      → IsMemory h
      → Makes h.next m h Q
      → ((a : A) (h' : Memory Meta) → IsMemory h' → Extends h h' → Makes h'.next (f a) h' (R a))
      → ((a : A) (b : B) (g : Memory Meta) → Q a g → R a b g → S b g)
      → Makes h.next (m >>= f) h S
  unfolding ◌>>=◌
  Makes-bind f R S good made next both =
      let rest =
        next made.result made.after made.sound (record { good = good; same = made.keeps }) in
      record {
        result = rest.result;
        after = rest.after;
        runs = simp made.runs rest.runs;
        sound = rest.sound;
        grows = omega (arith, made.grows, rest.grows);
        keeps = λ p lt. rest.keeps p (omega (arith, made.grows)) ∙ made.keeps p lt;
        owns = λ g same.
            both made.result rest.result g
              (made.owns g (λ p lo hi. same p lo (omega (arith, rest.grows)) ∙ rest.keeps p hi))
              (rest.owns g (λ p lo hi. same p (omega (arith, made.grows)) hi));
      }

  pub Makes-pure :
      {A : Type 0} {h : Memory Meta} {Q : A → Memory Meta → Type 0} (a : A)
      → IsMemory h
      → ((g : Memory Meta) → Q a g)
      → Makes h.next (pure a) h Q
  unfolding pure
  Makes-pure {h} a good q = record {
    result = a;
    after = h;
    runs = refl;
    sound = good;
    grows = omega arith;
    keeps = λ p lt. refl;
    owns = λ g same. q g;
  }
