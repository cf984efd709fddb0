-- ===== src/Shared/Hoare.antt =====
-- Pre- and postconditions of the actions of a maintenance transaction, on the disk and the journal
-- in memory. Nothing is asked of the host: every runtime call and every fault is covered.
use Prim.Native.Nat.{ℕ, suc, ◌+◌}
use native.Mathlib.Omega.{arith}
use resilient_datacenter.Shared.Lists.{length}
use Prim.Native.String.{String}
use mathlib.Core.Path.{◌≡◌, refl, subst}
use mathlib.Core.Bool.{Bool, true, false}
use mathlib.Core.Option.{Option, none, some}
use mathlib.Core.List.{List, [], ◌∷◌}
use resilient_datacenter.Shared.Tests.{if◌then◌else◌}
use resilient_datacenter.Shared.Effects.{
  Signal, failure, Out, ok, raised, Done, pure, raise, refuse_if, proceed, ◌>>=◌, ◌>>◌,
}
use resilient_datacenter.Shared.Maintenance.{
  World, Action, Call, Fault, none_now, before, after, call, memory, land, file_op, for_each,
  for_each_reversed, for_all, for_all_reversed,
}

pub some-eq {ℓ} : {A : Type ℓ} (a b : A) → some a ≡ some b → a ≡ b
some-eq a b h = cc

abbrev pub Pred : Type 0 → Type 0 → Type 1
Pred D J = D → J → Type 0

module _ {D J H A : Type 0} where
  abbrev pub Post : (A → Pred D J) → (Signal → Pred D J) → Out A × World D J H → Type 0
  Post Q E (ok a, w) = Q a w.disk w.memory
  Post Q E (raised e, w) = E e w.disk w.memory

  -- From `P` the action returns with `Q` or raises with `E`.
  pub record Hoare (P : Pred D J) (m : Action D J H A) (Q : A → Pred D J) (E : Signal → Pred D J)
      : Type 0 where
    pub at : (w : World D J H) → P w.disk w.memory → Post Q E (m w)

module _ {D J H A B : Type 0} {E : Signal → Pred D J} where
  proceed-Post :
      {Q : A → Pred D J} {R : B → Pred D J} (f : A → Action D J H B) (r : Out A × World D J H)
      → Post Q E r
      → ((a : A) → Hoare (Q a) (f a) R E)
      → Post R E (proceed r.0 f r.1)
  proceed-Post f (ok a, w) h k = (k a).at w h
  proceed-Post f (raised e, w) h k = h

  pub bind_rule :
      {P : Pred D J} {Q : A → Pred D J} {R : B → Pred D J} {m : Action D J H A}
      {f : A → Action D J H B}
      → Hoare P m Q E
      → ((a : A) → Hoare (Q a) (f a) R E)
      → Hoare P (m >>= f) R E
  bind_rule {m} {f} h k = record { at = λ w p. proceed-Post f (m w) (h.at w p) k }

  pub seq_rule :
      {P : Pred D J} {Q : Pred D J} {R : B → Pred D J} {m : Action D J H A} {n : Action D J H B}
      → Hoare P m (λ _. Q) E
      → Hoare Q n R E
      → Hoare P (m >> n) R E
  seq_rule h k = bind_rule h (λ a. k)

module _ {D J H A : Type 0} where
  pub weaken-Post :
      {Q Q' : A → Pred D J} {E E' : Signal → Pred D J} (r : Out A × World D J H)
      → ((a : A) (d : D) (j : J) → Q a d j → Q' a d j)
      → ((e : Signal) (d : D) (j : J) → E e d j → E' e d j)
      → Post Q E r
      → Post Q' E' r
  weaken-Post (ok a, w) q e h = q a w.disk w.memory h
  weaken-Post (raised s, w) q e h = e s w.disk w.memory h

  pub weaken_rule :
      {P P' : Pred D J} {Q Q' : A → Pred D J} {E E' : Signal → Pred D J} {m : Action D J H A}
      → Hoare P m Q E
      → ((d : D) (j : J) → P' d j → P d j)
      → ((a : A) (d : D) (j : J) → Q a d j → Q' a d j)
      → ((e : Signal) (d : D) (j : J) → E e d j → E' e d j)
      → Hoare P' m Q' E'
  weaken_rule {m} h p q e = record {
    at = λ w x. weaken-Post (m w) q e (h.at w (p w.disk w.memory x));
  }

  -- Where `m` raises, what it was given still holds.
  pub raising_rule :
      {P : Pred D J} {Q : A → Pred D J} {E E' : Signal → Pred D J} {m : Action D J H A}
      → Hoare P m Q E
      → ((e : Signal) (d : D) (j : J) → E e d j → E' e d j)
      → Hoare P m Q E'
  raising_rule h e = weaken_rule h (λ d j p. p) (λ a d j q. q) e

  pub pure_rule :
      {P : Pred D J} {E : Signal → Pred D J} (a : A) → Hoare {H = H} P (pure a) (λ _. P) E
  pure_rule a = record { at = λ w p. p }

  -- What the precondition says outright may be assumed.
  pub fact_rule :
      {P : Pred D J} {Q : A → Pred D J} {E : Signal → Pred D J} {m : Action D J H A} (F : Type 0)
      → ((d : D) (j : J) → P d j → F)
      → (F → Hoare P m Q E)
      → Hoare P m Q E
  fact_rule F f h = record { at = λ w p. (h (f w.disk w.memory p)).at w p }

  pub return_rule :
      {Q : A → Pred D J} {E : Signal → Pred D J} (a : A) → Hoare {H = H} (Q a) (pure a) Q E
  return_rule a = record { at = λ w p. p }

  pub raise_rule :
      {P : Pred D J} {Q : A → Pred D J} (e : Signal) → Hoare {H = H} P (raise e) Q (λ _. P)
  raise_rule e = record { at = λ w p. p }

  -- An action that reads the world before it starts.
  pub reading_rule :
      {P : Pred D J} {Q : A → Pred D J} {E : Signal → Pred D J} (m : World D J H → Action D J H A)
      → ((w : World D J H) → Hoare P (m w) Q E)
      → Hoare P (λ w. m w w) Q E
  reading_rule m h = record { at = λ w p. (h w).at w p }

  -- The same where what it reads matters.
  pub observing_rule :
      {P : Pred D J} {Q : A → Pred D J} {E : Signal → Pred D J} (m : World D J H → Action D J H A)
      → ((w : World D J H) → Hoare (λ d j. P d j × (d ≡ w.disk) × (j ≡ w.memory)) (m w) Q E)
      → Hoare P (λ w. m w w) Q E
  observing_rule m h = record { at = λ w p. (h w).at w (p, refl, refl) }

  call-Post :
      (P : Pred D J) (w : World D J H) (r : Out A × H)
      → P w.disk w.memory
      → Post (λ _. P) (λ _. P) (let (o, h) = r in (o, record w { host = h }))
  call-Post P w (ok a, h) p = p
  call-Post P w (raised e, h) p = p

  -- A runtime call leaves the disk and the journal as they were.
  pub call_rule : {P : Pred D J} (f : Call D H A) → Hoare P (call f) (λ _. P) (λ _. P)
  unfolding call
  call_rule f = record { at = λ w p. call-Post _ w (f w.disk w.host) p }

module _ {D J H : Type 0} {P : Pred D J} where
  pub refuse_rule :
      (b : Bool) → Hoare {H = H} P (refuse_if b) (λ _ d j. P d j × (b ≡ false)) (λ _. P)
  refuse_rule true = record { at = λ w p. p }
  refuse_rule false = record { at = λ w p. (p, refl) }

  pub if_rule :
      {A : Type 0} {Q : A → Pred D J} {E : Signal → Pred D J} (b : Bool) {m n : Action D J H A}
      → (b ≡ true → Hoare P m Q E)
      → (b ≡ false → Hoare P n Q E)
      → Hoare P (if b then m else n) Q E
  if_rule true h k = h refl
  if_rule false h k = k refl

  pub memory_rule : {E : Signal → Pred D J} → Hoare {H = H} P memory (λ a d j. P d j × (j ≡ a)) E
  unfolding memory
  memory_rule = record { at = λ w p. (p, refl) }

  -- journal['…'] = …
  pub remember_rule :
      {Q : Pred D J} {E : Signal → Pred D J} (g : J → J)
      → ((d : D) (j : J) → P d j → Q d (g j))
      → Hoare {H = H} P (λ w. (ok tt, record w { memory = g w.memory })) (λ _. Q) E
  remember_rule g q = record { at = λ w p. q w.disk w.memory p }

-- The index that follows the last one of a loop.
abbrev pub beyond : ℕ → List String → ℕ
beyond i [] = i
beyond i (n ∷ ns) = beyond (suc i) ns

pub beyond-eq-add : (i : ℕ) (ns : List String) → beyond i ns ≡ i + length ns
beyond-eq-add i [] = omega arith
beyond-eq-add i (n ∷ ns) = omega (arith, beyond-eq-add (suc i) ns)

module _ {D J H : Type 0} {E : Signal → Pred D J} where
  pub for_all_rule :
      {A : Type 0} {P : Pred D J} (xs : List A) {body : A → Action D J H Done}
      → ((x : A) → Hoare P (body x) (λ _. P) E)
      → Hoare P (for_all xs body) (λ _. P) E
  unfolding for_all
  for_all_rule [] h = pure_rule tt
  for_all_rule (x ∷ xs) h = seq_rule (h x) (for_all_rule xs h)

  pub for_all_reversed_rule :
      {A : Type 0} {P : Pred D J} (xs : List A) {body : A → Action D J H Done}
      → ((x : A) → Hoare P (body x) (λ _. P) E)
      → Hoare P (for_all_reversed xs body) (λ _. P) E
  unfolding for_all_reversed
  for_all_reversed_rule [] h = pure_rule tt
  for_all_reversed_rule (x ∷ xs) h = seq_rule (for_all_reversed_rule xs h) (h x)

  -- `Inv k`: the iterations below `k` are done.
  pub for_each_rule :
      (Inv : ℕ → Pred D J) (i : ℕ) (ns : List String) {body : ℕ → String → Action D J H Done}
      → ((k : ℕ) (n : String) → Hoare (Inv k) (body k n) (λ _. Inv (suc k)) E)
      → Hoare (Inv i) (for_each i ns body) (λ _. Inv (beyond i ns)) E
  unfolding for_each
  for_each_rule Inv i [] h = pure_rule tt
  for_each_rule Inv i (n ∷ ns) h = seq_rule (h i n) (for_each_rule Inv (suc i) ns h)

  -- `Inv k`: the iterations from `k` on are done.
  pub for_each_reversed_rule :
      (Inv : ℕ → Pred D J) (i : ℕ) (ns : List String) {body : ℕ → String → Action D J H Done}
      → ((k : ℕ) (n : String) → Hoare (Inv (suc k)) (body k n) (λ _. Inv k) E)
      → Hoare (Inv (beyond i ns)) (for_each_reversed i ns body) (λ _. Inv i) E
  unfolding for_each_reversed
  for_each_reversed_rule Inv i [] h = pure_rule tt
  for_each_reversed_rule Inv i (n ∷ ns) h =
      seq_rule (for_each_reversed_rule Inv (suc i) ns h) (h i n)

module _ {D J H : Type 0} (disturb : H → Fault × H) where
  land-Post :
      (Q : Pred D J) (E : Signal → Pred D J) (x : Fault) (o : Option (D)) (w : World D J H)
      → ((d : D) → o ≡ some d → Q d w.memory)
      → ((e : Signal) → E e w.disk w.memory)
      → ((e : Signal) (d : D) → o ≡ some d → E e d w.memory)
      → Post (λ _. Q) E (land x o w)
  unfolding land
  land-Post Q E f none w q e l = e failure
  land-Post Q E none_now (some d) w q e l = q d refl
  land-Post Q E (before s) (some d) w q e l = e s
  land-Post Q E (after s) (some d) w q e l = l s d refl

  -- A file operation ends with its effect, or raises with it or without it.
  pub file_rule :
      {P Q : Pred D J} {E : Signal → Pred D J} (f : J → D → Option (D))
      → ((d d' : D) (j : J) → P d j → f j d ≡ some d' → Q d' j)
      → ((e : Signal) (d : D) (j : J) → P d j → E e d j)
      → ((e : Signal) (d : D) (j : J) → Q d j → E e d j)
      → Hoare P (λ w. file_op disturb (f w.memory) w) (λ _. Q) E
  unfolding file_op
  file_rule f q e l = record {
    at = λ w p.
        let (x, h) = disturb w.host in
        land-Post _ _ x (f w.memory w.disk) (record w { host = h }) (λ d o. q w.disk d w.memory p o)
          (λ s. e s w.disk w.memory p) (λ s d o. l s d w.memory (q w.disk d w.memory p o));
  }

  -- The same for an operation that can always be carried out.
  pub write_rule :
      {P Q : Pred D J} {E : Signal → Pred D J} (g : J → D → D)
      → ((d : D) (j : J) → P d j → Q (g j d) j)
      → ((e : Signal) (d : D) (j : J) → P d j → E e d j)
      → ((e : Signal) (d : D) (j : J) → Q d j → E e d j)
      → Hoare P (λ w. file_op disturb (λ d. some (g w.memory d)) w) (λ _. Q) E
  write_rule {Q} g q e l =
      file_rule (λ j d. some (g j d))
        (λ d d' j p o. subst (λ x. Q x j) (some-eq (g j d) d' o) (q d j p)) e l
