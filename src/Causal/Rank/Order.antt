-- ===== src/Causal/Rank/Order.antt =====
-- The ranking of hypotheses.
use k8s_check.Prelude.{
  ℕ, suc, ◌+◌, ◌≤◌, ◌≡◌, refl, ◌≢◌, ◌∙◌, ap, true, false, not, some, List, [], ◌∷◌, arith, ◌==◌,
  ==_iff, string_eq, option_eq, length, if-elim, filter, All, All-sort_by, sort_by, insert_by,
  length-take, length-sort_by,
}
use k8s_check.Causal.Finding.{Finding}
use k8s_check.Causal.Rank.{
  Hypothesis, Downstream, hypotheses, ranks_before, number_from, rank_hypotheses, score,
}

-- What holds of each ranked hypothesis.
pub record IsSound (h : Hypothesis) : Type 0 where
  pub bound : h.score ≤ 100
  pub role : h.role ≢ some "consequence"
  pub evidence : length h.evidence ≤ 10
  pub counter : length h.counter_evidence ≤ 10
  pub missing : length h.missing_checks ≤ 10

score_bound : (finding : Finding) (n : ℕ) → score finding n ≤ 100
unfolding score
score_bound finding n = omega arith

hypotheses-IsSound :
    (downstream : Downstream) (findings : List Finding)
    → All IsSound (hypotheses downstream findings)
unfolding hypotheses
hypotheses-IsSound downstream [] = tt
hypotheses-IsSound downstream (finding ∷ findings) =
    if-elim (All IsSound) (finding.finding_role == some "consequence")
      (λ _. hypotheses-IsSound downstream findings)
      (λ other. (
        record {
          bound = score_bound finding _;
          role = λ e. ground (arith, ==_iff finding.finding_role (some "consequence"), e);
          evidence = omega (arith, length-take 10 finding.evidence);
          counter = omega (arith, length-take 10 finding.counter_evidence);
          missing = omega (arith, length-take 10 finding.missing_checks);
        },
        hypotheses-IsSound downstream findings,
      ))

-- Scores fall along the list, and the ranks count up from `n`.
abbrev pub Falls : ℕ → List Hypothesis → Type 0
Falls top [] = Unit
Falls top (h ∷ hs) = (h.score ≤ top) × Falls h.score hs

abbrev pub RankedFrom : ℕ → List Hypothesis → Type 0
RankedFrom n [] = Unit
RankedFrom n (h ∷ hs) = (h.rank ≡ n) × RankedFrom (n + 1) hs

before→le : (a b : Hypothesis) → ranks_before a b ≡ true → b.score ≤ a.score
unfolding ranks_before
before→le a b h = ground arith

not_before→le : (a b : Hypothesis) → ranks_before a b ≡ false → a.score ≤ b.score
unfolding ranks_before
not_before→le a b h = ground arith

Falls-insert_by :
    (h : Hypothesis) (hs : List Hypothesis) (top : ℕ)
    → h.score ≤ top
    → Falls top hs
    → Falls top (insert_by ranks_before h hs)
unfolding insert_by
Falls-insert_by h [] top le f = (le, tt)
Falls-insert_by h (k ∷ ks) top le (lk, f) =
    if-elim (Falls top) (ranks_before h k) (λ first. (le, (before→le h k first, f)))
      (λ later. (lk, Falls-insert_by h ks k.score (not_before→le h k later) f))

Falls-sort_by :
    (hs : List Hypothesis) → All (λ h. h.score ≤ 100) hs → Falls 100 (sort_by ranks_before hs)
unfolding sort_by
Falls-sort_by [] _ = tt
Falls-sort_by (h ∷ hs) (b, bs) =
    Falls-insert_by h (sort_by ranks_before hs) 100 b (Falls-sort_by hs bs)

bounds : (hs : List Hypothesis) → All IsSound hs → All (λ h. h.score ≤ 100) hs
bounds [] _ = tt
bounds (h ∷ hs) (s, ss) = (s.bound, bounds hs ss)

Falls-number_from : (n top : ℕ) (hs : List Hypothesis) → Falls top hs → Falls top (number_from n hs)
unfolding number_from
Falls-number_from n top [] _ = tt
Falls-number_from n top (h ∷ hs) (le, f) = (le, Falls-number_from (n + 1) h.score hs f)

RankedFrom-number_from : (n : ℕ) (hs : List Hypothesis) → RankedFrom n (number_from n hs)
unfolding number_from
RankedFrom-number_from n [] = tt
RankedFrom-number_from n (h ∷ hs) = (refl, RankedFrom-number_from (n + 1) hs)

IsSound-number_from :
    (n : ℕ) (hs : List Hypothesis) → All IsSound hs → All IsSound (number_from n hs)
unfolding number_from
IsSound-number_from n [] _ = tt
IsSound-number_from n (h ∷ hs) (s, ss) = (
  record {
    bound = s.bound;
    role = s.role;
    evidence = s.evidence;
    counter = s.counter;
    missing = s.missing;
  },
  IsSound-number_from (n + 1) hs ss,
)

length-number_from : (n : ℕ) (hs : List Hypothesis) → length (number_from n hs) ≡ length hs
unfolding number_from
length-number_from n [] = refl
length-number_from n (h ∷ hs) = ap suc (length-number_from (n + 1) hs)

abbrev pub rankable : List Finding → List Finding
rankable = filter (λ finding. not (finding.finding_role == some "consequence"))

length-hypotheses :
    (downstream : Downstream) (findings : List Finding)
    → length (hypotheses downstream findings) ≡ length (rankable findings)
unfolding hypotheses
length-hypotheses downstream [] = refl
length-hypotheses downstream (finding ∷ findings) =
    ground (arith, length-hypotheses downstream findings)

-- There is one hypothesis for each finding that is no consequence. Their scores lie between 0 and 100 and fall along
-- the list, the ranks count up from 1, and each keeps at most ten items of each kind of evidence.
pub rank_hypotheses-Falls :
    (findings : List Finding) (downstream : Downstream)
    → Falls 100 (rank_hypotheses findings downstream)
      × RankedFrom 1 (rank_hypotheses findings downstream)
      × All IsSound (rank_hypotheses findings downstream)
      × (length (rank_hypotheses findings downstream) ≡ length (rankable findings))
unfolding rank_hypotheses
rank_hypotheses-Falls findings downstream =
    let found = hypotheses downstream findings in
    let sound = hypotheses-IsSound downstream findings in
    (
      Falls-number_from 1 100 _ (Falls-sort_by found (bounds found sound)),
      RankedFrom-number_from 1 _,
      IsSound-number_from 1 _ (All-sort_by ranks_before IsSound found sound),
      length-number_from 1 _
          ∙ length-sort_by ranks_before found
          ∙ length-hypotheses downstream findings,
    )
