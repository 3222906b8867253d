-- ===== src/Auth/Guard/Redirects.antt =====
-- How often the guard redirects to the identity provider.
use mooring_line_management.Base.{
  ℕ, suc, ◌+◌, ◌-◌, ◌≤◌, ◌<◌, ◌≡◌, ◌≢◌, refl, sym, ap, ◌∙◌, subst, String, Bool, true, false, ◌&&◌,
  ◌||◌, Option, List, [], ◌∷◌, ◌++◌, ltb, leb, filter, length, if◌then◌else◌, arith, Bool-cases,
  inl, inr, All, All-imp,
}
use mooring_line_management.Auth.Context.{AuthStatus, loading, authenticated, unauthenticated}
use mooring_line_management.Auth.Guard.{
  max_attempts, window_ms, Stored, absent, attempts, times, recent_attempts, record_attempt,
  has_reason, Guard, mount, effect, attempt,
}

-- A page load, or a later run of the effect in one: the status that the session query gave, the
-- `auth_error` of the address, and the time.
pub record Visit : Type 0 where
  pub status : AuthStatus
  pub reason : Option String
  pub now : ℕ

unfoldable pub visit : Visit → Stored → Guard
visit v s = effect v.status v.reason v.now (mount v.reason v.now s)

-- How many of the visits redirect, from one storage on.
unfoldable pub redirects : List Visit → Stored → ℕ
unfolding visit
redirects [] s = 0
redirects (v ∷ vs) s =
    let rest = redirects vs (visit v s).stored in if (visit v s).redirected then suc rest else rest

-- In the thirty seconds from `start`.
abbrev in_window : ℕ → ℕ → Bool
in_window start t = leb start t && ltb t (start + window_ms)

count_in : ℕ → List ℕ → ℕ
count_in start ts = length (filter (in_window start) ts)

-- What was recorded in the window is recent at every time in the window.
count_in-filter :
    (start now : ℕ) (ts : List ℕ)
    → in_window start now ≡ true
    → count_in start (filter (λ t. ltb (now - t) window_ms) ts) ≡ count_in start ts
unfolding count_in
count_in-filter start now [] h = refl
count_in-filter start now (t ∷ ts) h = ground (arith, count_in-filter start now ts)

count_in-snoc :
    (start now : ℕ) (ts : List ℕ)
    → in_window start now ≡ true
    → count_in start (ts ++ now ∷ []) ≡ suc (count_in start ts)
unfolding count_in
count_in-snoc start now [] h = ground arith
count_in-snoc start now (t ∷ ts) h = ground (arith, count_in-snoc start now ts)

count_in-le : (start : ℕ) (ts : List ℕ) → count_in start ts ≤ length ts
unfolding count_in
count_in-le start [] = omega arith
count_in-le start (t ∷ ts) = ground (arith, count_in-le start ts)

-- The recorded times after one more attempt.
pushed : ℕ → Stored → List ℕ
pushed now s = filter (λ t. ltb (now - t) window_ms) (times s) ++ now ∷ []

count_in-pushed :
    (start now : ℕ) (s : Stored)
    → in_window start now ≡ true
    → count_in start (pushed now s) ≡ suc (count_in start (times s))
unfolding pushed
count_in-pushed start now s h =
    count_in-snoc start now _ h ∙ ap suc (count_in-filter start now (times s) h)

-- What a run that is not authenticated does to the storage: it redirects with at most one recent
-- attempt before it, and no attempt of the window is forgotten.
record Grows (start : ℕ) (s : Stored) (g : Guard) : Type 0 where
  redirected_early : g.redirected ≡ true → count_in start (times s) ≤ 1
  recorded : g.redirected ≡ true → suc (count_in start (times s)) ≤ count_in start (times g.stored)
  kept : count_in start (times s) ≤ count_in start (times g.stored)

no_redirect-Grows :
    (start : ℕ) (s : Stored) (g : Guard)
    → g.redirected ≡ false
    → count_in start (times s) ≤ count_in start (times g.stored)
    → Grows start s g
no_redirect-Grows start s g e h = record {
  redirected_early = λ r. cc;
  recorded = λ r. cc;
  kept = h;
}

attempt-Grows :
    (start now : ℕ) (g : Guard) → in_window start now ≡ true → Grows start g.stored (attempt now g)
unfolding attempt record_attempt pushed
attempt-Grows start now g h =
    let grown = count_in-pushed start now g.stored h in
    elim (Bool-cases (leb max_attempts (length (pushed now g.stored)))) [
      | inl many ↦ rw many (no_redirect-Grows start g.stored _ refl (omega (arith, grown)))
      | inr few ↦ rw few (record {
        redirected_early = λ r. ground (arith, grown, count_in-le start (pushed now g.stored));
        recorded = λ r. omega (arith, grown);
        kept = omega (arith, grown);
      })
    ]

effect-Grows :
    (start : ℕ) (status : AuthStatus) (reason : Option String) (now : ℕ) (g : Guard)
    → status ≢ authenticated
    → in_window start now ≡ true
    → Grows start g.stored (effect status reason now g)
unfolding effect
effect-Grows start authenticated reason now g n h = absurd (n refl)
effect-Grows start loading reason now g n h = no_redirect-Grows start g.stored _ refl (omega arith)
effect-Grows start unauthenticated reason now g n h =
    elim (has_reason reason || leb max_attempts (length (recent_attempts g.stored now)))
      as (λ b.
        Grows start g.stored
          (if b then record g { blocked = true; redirected = false } else attempt now g)) [
            | true ↦ no_redirect-Grows start g.stored _ refl (omega arith)
            | false ↦ attempt-Grows start now g h
          ]

visit-Grows :
    (start : ℕ) (v : Visit) (s : Stored)
    → v.status ≢ authenticated
    → in_window start v.now ≡ true
    → Grows start s (visit v s)
unfolding visit mount
visit-Grows start v s n h = effect-Grows start v.status v.reason v.now (mount v.reason v.now s) n h

redirects-le_rest :
    (start : ℕ) (vs : List Visit) (s : Stored)
    → All (λ v. (v.status ≢ authenticated) × (in_window start v.now ≡ true)) vs
    → redirects vs s ≤ 2 - count_in start (times s)
unfolding redirects
redirects-le_rest start [] s h = omega arith
redirects-le_rest start (v ∷ vs) s h =
    let g = visit-Grows start v s h.0.0 h.0.1 in
    ground (
      arith,
      g.redirected_early,
      g.recorded,
      g.kept,
      redirects-le_rest start vs (visit v s).stored h.1,
    )

abbrev pub Unanswered : ℕ → Visit → Type 0
Unanswered start v = (v.status ≢ authenticated) × (start ≤ v.now) × (v.now < start + window_ms)

-- The loop-breaker: however often the page is loaded and the effect runs, the guard redirects at most
-- twice within thirty seconds in which no session comes about, whatever the storage held before.
pub redirects-le :
    (start : ℕ) (vs : List Visit) (s : Stored) → All (Unanswered start) vs → redirects vs s ≤ 2
redirects-le start vs s h = omega (
  arith,
  redirects-le_rest start vs s (All-imp _ _ vs (λ v u. (u.0, ground (arith, u.1, u.2))) h),
)

filter_old :
    (now : ℕ) (ts : List ℕ)
    → All (λ t. t + window_ms ≤ now) ts
    → filter (λ t. ltb (now - t) window_ms) ts ≡ []
filter_old now [] h = refl
filter_old now (t ∷ ts) h = ground (arith, filter_old now ts, h.0, h.1)

effect_fresh :
    (reason : Option String) (now : ℕ) (g : Guard)
    → has_reason reason ≡ false
    → recent_attempts g.stored now ≡ []
    → ((effect unauthenticated reason now g).redirected ≡ true)
      × ((effect unauthenticated reason now g).stored ≡ attempts (now ∷ []))
unfolding effect attempt record_attempt
effect_fresh reason now g r e = simp (r, e) (refl, refl)

-- A visit with no reported error whose recorded attempts are all thirty seconds old does redirect.
pub visit-redirected :
    (v : Visit) (s : Stored)
    → v.status ≡ unauthenticated
    → has_reason v.reason ≡ false
    → All (λ t. t + window_ms ≤ v.now) (times s)
    → ((visit v s).redirected ≡ true) × ((visit v s).stored ≡ attempts (v.now ∷ []))
unfolding visit mount recent_attempts
visit-redirected v s u r old =
    subst
      (λ status.
        let g = effect status v.reason v.now (mount v.reason v.now s) in
        (g.redirected ≡ true) × (g.stored ≡ attempts (v.now ∷ [])))
      (sym u)
      (effect_fresh v.reason v.now (mount v.reason v.now s) r (filter_old v.now (times s) old))

-- After a session came about, the attempts are forgotten.
pub visit-cleared :
    (v : Visit) (s : Stored)
    → v.status ≡ authenticated
    → ((visit v s).stored ≡ absent) × ((visit v s).redirected ≡ false)
unfolding visit effect
visit-cleared v s e = rw e (refl, refl)
