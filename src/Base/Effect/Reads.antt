-- ===== src/Base/Effect/Reads.antt =====
-- Calls that only read: they leave alone a part of the state, `view s`, and what they return is a
-- fact about that part. One rule for each way to build a call, and the rule that goes on after one.
use mathlib.Core.Path.{◌≡◌, refl, sym, subst, ◌∙◌}
use mathlib.Core.Bool.{Bool, true, false}
use mathlib.Core.Option.{Option, none, some}
use ma_secure.Base.Effect.{
  Result, ok, err, Exec, pure, lift, guard, require_some, continue, ◌>>=◌, ◌>>◌,
}

abbrev pub Holds : {E T A : Type 0} → (A → T → Type 0) → Result E A → T → Type 0
Holds F (ok a) t = F a t
Holds F (err e) t = Unit

pub record Reads {E S T A : Type 0} (view : S → T) (F : A → T → Type 0) (m : Exec E S A)
    : Type 0 where
  pub same : (s : S) → view (m s).1 ≡ view s
  pub gives : (s : S) → Holds F (m s).0 (view s)

lift_gives : {E T A : Type 0} (r : Result E A) (t : T) → Holds (λ b u. r ≡ ok b) r t
lift_gives (ok a) t = refl
lift_gives (err e) t = tt

pub weaken :
    {E T A : Type 0} (F G : A → T → Type 0) (t : T)
    → ((a : A) → F a t → G a t)
    → (r : Result E A) → Holds F r t
    → Holds G r t
weaken F G t w (ok a) h = w a h
weaken F G t w (err e) h = tt

module _ {E S T A : Type 0} {view : S → T} where
  pub Reads-pure : (a : A) → Reads view (λ b t. b ≡ a) (pure {E = E} a)
  Reads-pure a = record { same = λ s. refl; gives = λ s. refl }

  pub Reads-lift : (r : Result E A) → Reads view (λ b t. r ≡ ok b) (lift r)
  Reads-lift r = record { same = λ s. refl; gives = λ s. lift_gives r (view s) }

  pub Reads-require_some :
      (o : Option A) (e : E) → Reads view (λ b t. o ≡ some b) (require_some o e)
  Reads-require_some none e = record { same = λ s. refl; gives = λ s. tt }
  Reads-require_some (some a) e = record { same = λ s. refl; gives = λ s. refl }

  pub Reads-weaken :
      (F G : A → T → Type 0) (m : Exec E S A)
      → Reads view F m
      → ((a : A) (t : T) → F a t → G a t)
      → Reads view G m
  Reads-weaken F G m r w = record {
    same = r.same;
    gives = λ s. weaken F G (view s) (λ a. w a (view s)) (m s).0 (r.gives s);
  }

pub Reads-guard :
    {E S T : Type 0} {view : S → T} (b : Bool) (e : E)
    → Reads view (λ u t. b ≡ true) (guard {S = S} b e)
Reads-guard true e = record { same = λ s. refl; gives = λ s. refl }
Reads-guard false e = record { same = λ s. refl; gives = λ s. tt }

module _ {E S T A B : Type 0} (view : S → T) (F : A → T → Type 0) (G : A → B → T → Type 0) where
  continue-Reads :
      (f : A → Exec E S B)
      → ((a : A) → Reads view (G a) (f a))
      → (r : Result E A) (s : S) (t : T) → view s ≡ t
      → Holds F r t
      → (view (continue f r s).1 ≡ t)
        × Holds (λ b u. (a : A) × F a u × G a b u) (continue f r s).0 t
  continue-Reads f k (ok a) s t e h = (
    (k a).same s ∙ e,
    weaken (G a) (λ b u. (c : A) × F c u × G c b u) t (λ b g. (a, h, g)) (f a s).0
        (subst (Holds (G a) (f a s).0) e ((k a).gives s)),
  )
  continue-Reads f k (err x) s t e h = (e, tt)

  pub Reads-bind :
      (m : Exec E S A) (f : A → Exec E S B)
      → Reads view F m
      → ((a : A) → Reads view (G a) (f a))
      → Reads view (λ b u. (a : A) × F a u × G a b u) (m >>= f)
  Reads-bind m f r k = record {
    same = λ s. (continue-Reads f k (m s).0 (m s).1 (view s) (r.same s) (r.gives s)).0;
    gives = λ s. (continue-Reads f k (m s).0 (m s).1 (view s) (r.same s) (r.gives s)).1;
  }

-- Go on after a read: the rest starts from the same view, and knows what the read returned.
module _ {E S T A B : Type 0} (view : S → T) (F : A → T → Type 0) (P : T → Type 0) where
  go_on :
      (f : A → Exec E S B) (t : T)
      → ((a : A) (s : S) → view s ≡ t → F a t → P (view (f a s).1))
      → P t
      → (r : Result E A) (s : S) → view s ≡ t
      → Holds F r t
      → P (view (continue f r s).1)
  go_on f t k p (ok a) s e h = k a s e h
  go_on f t k p (err x) s e h = subst P (sym e) p

  pub after_read :
      (m : Exec E S A) (f : A → Exec E S B)
      → Reads view F m
      → (t : T) (s : S) → view s ≡ t
      → P t
      → ((a : A) (s' : S) → view s' ≡ t → F a t → P (view (f a s').1))
      → P (view ((m >>= f) s).1)
  after_read m f r t s e p k =
      go_on f t k p (m s).0 (m s).1 (r.same s ∙ e) (subst (Holds F (m s).0) e (r.gives s))

-- A call that, started where the view is `t`, leaves a view for which `P` holds.
pub record Leaves {E S T A : Type 0} (view : S → T) (P : T → Type 0) (t : T) (m : Exec E S A)
    : Type 0 where
  pub at : (s : S) → view s ≡ t → P (view (m s).1)

module _ {E S T A B : Type 0} {view : S → T} {F : A → T → Type 0} {P : T → Type 0} {t : T} where
  pub Leaves-read :
      (m : Exec E S A) (f : A → Exec E S B)
      → Reads view F m
      → P t
      → ((a : A) → F a t → Leaves view P t (f a))
      → Leaves view P t (m >>= f)
  Leaves-read m f r p k = record {
    at = λ s e. after_read view F P m f r t s e p (λ a s' e' h. (k a h).at s' e');
  }

module _ {E S T B : Type 0} {view : S → T} {P : T → Type 0} {t : T} where
  pub Leaves-guard :
      (b : Bool) (e : E) (m : Exec E S B)
      → P t
      → (b ≡ true → Leaves view P t m)
      → Leaves view P t (guard b e >> m)
  Leaves-guard b e m p k = Leaves-read (guard b e) (λ _. m) (Reads-guard b e) p λ u. k

-- Go on after any call that leaves `P` true.
module _ {E S T A B : Type 0} (view : S → T) (P : T → Type 0) where
  go_on_call :
      (f : A → Exec E S B) (r : Result E A) (s : S)
      → P (view s)
      → ((a : A) → r ≡ ok a → P (view (f a s).1))
      → P (view (continue f r s).1)
  go_on_call f (ok a) s p k = k a refl
  go_on_call f (err e) s p k = p

  pub after_call :
      (m : Exec E S A) (f : A → Exec E S B) (s : S)
      → P (view (m s).1)
      → ((a : A) → (m s).0 ≡ ok a → P (view (f a (m s).1).1))
      → P (view ((m >>= f) s).1)
  after_call m f s p k = go_on_call f (m s).0 (m s).1 p k

-- A call that only reads; nothing is said of its value.
abbrev pub Quiet : {E S T A : Type 0} → (S → T) → Exec E S A → Type 0
Quiet view m = Reads view (λ a t. Unit) m

module _ {E S T A B : Type 0} {view : S → T} where
  pub Quiet-bind :
      (m : Exec E S A) (f : A → Exec E S B)
      → Quiet view m
      → ((a : A) → Quiet view (f a))
      → Quiet view (m >>= f)
  Quiet-bind m f r k =
      Reads-weaken (λ b t. (a : A) × Unit {0} × Unit {0}) (λ b t. Unit) (m >>= f)
        (Reads-bind view (λ a t. Unit) (λ a b t. Unit) m f r k) (λ b t h. tt)

module _ {E S T A : Type 0} {view : S → T} where
  pub Quiet-of-Reads : {F : A → T → Type 0} {m : Exec E S A} → Reads view F m → Quiet view m
  Quiet-of-Reads {F} {m} r = Reads-weaken F (λ a t. Unit) m r (λ a t h. tt)

  pub Quiet-pure : (a : A) → Quiet view (pure {E = E} a)
  Quiet-pure a = Quiet-of-Reads (Reads-pure a)

pub Quiet-guard :
    {E S T : Type 0} {view : S → T} (b : Bool) (e : E) → Quiet view (guard {S = S} b e)
Quiet-guard b e = Quiet-of-Reads (Reads-guard b e)

-- A call that leaves `P`, and then one that only reads.
module _ {E S T A B : Type 0} {view : S → T} {P : T → Type 0} {t : T} where
  pub Leaves-call :
      (m : Exec E S A) (f : A → Exec E S B)
      → ((s : S) → view s ≡ t → P (view (m s).1))
      → ((a : A) → Quiet view (f a))
      → Leaves view P t (m >>= f)
  Leaves-call m f p k = record {
    at = λ s e. after_call view P m f s (p s e) (λ a h. subst P (sym ((k a).same (m s).1)) (p s e));
  }

-- A call that, started where the view is `t`, ends with a result and a view that `Q` relates.
pub record Ensures {E S T A : Type 0} (view : S → T) (Q : Result E A → T → Type 0) (t : T)
    (m : Exec E S A) : Type 0 where
  pub at : (s : S) → view s ≡ t → Q (m s).0 (view (m s).1)

module _ {E S T A B : Type 0} (view : S → T) (F : A → T → Type 0) (Q : Result E B → T → Type 0)
    (t : T) where
  ensure_on :
      (f : A → Exec E S B)
      → ((e : E) → Q (err e) t)
      → ((a : A) → F a t → Ensures view Q t (f a))
      → (r : Result E A) (s : S) → view s ≡ t
      → Holds F r t
      → Q (continue f r s).0 (view (continue f r s).1)
  ensure_on f q k (ok a) s e h = (k a h).at s e
  ensure_on f q k (err x) s e h = subst (Q (err x)) (sym e) (q x)

module _ {E S T A B : Type 0} {view : S → T} {F : A → T → Type 0} {Q : Result E B → T → Type 0}
    {t : T} where
  pub Ensures-read :
      (m : Exec E S A) (f : A → Exec E S B)
      → Reads view F m
      → ((e : E) → Q (err e) t)
      → ((a : A) → F a t → Ensures view Q t (f a))
      → Ensures view Q t (m >>= f)
  Ensures-read m f r q k = record {
    at = λ s e.
        ensure_on view F Q t f q k (m s).0 (m s).1 (r.same s ∙ e)
          (subst (Holds F (m s).0) e (r.gives s));
  }

module _ {E S T B : Type 0} {view : S → T} {Q : Result E B → T → Type 0} {t : T} where
  pub Ensures-guard :
      (b : Bool) (e : E) (m : Exec E S B)
      → ((x : E) → Q (err x) t)
      → (b ≡ true → Ensures view Q t m)
      → Ensures view Q t (guard b e >> m)
  Ensures-guard b e m q k = Ensures-read (guard b e) (λ _. m) (Reads-guard b e) q λ u. k

module _ {E S T A : Type 0} {view : S → T} {F : A → T → Type 0} where
  pub Reads-of-Ensures :
      (m : Exec E S A)
      → ((t : T) → Ensures view (λ r u. (u ≡ t) × Holds F r t) t m)
      → Reads view F m
  Reads-of-Ensures m k = record {
    same = λ s. ((k (view s)).at s refl).0;
    gives = λ s. ((k (view s)).at s refl).1;
  }
