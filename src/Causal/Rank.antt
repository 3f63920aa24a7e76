-- ===== src/Causal/Rank.antt =====
-- `_rank_hypotheses` of src/kdiag/causal.py.
pub mod Order
use k8s_check.Prelude.{
  ℕ, zero, suc, ◌+◌, ◌-◌, ◌*◌, min, String, ◌<>◌, Bool, true, false, ◌&&◌, ◌||◌, not, Option, none,
  some, List, [], ◌∷◌, ◌++◌, map, ◌==◌, string_eq, option_eq, ltb, eqb, if◌then◌else◌, length, take,
  is_empty, get_or, or_else, or_text, str_leb, str_ltb, sort_by, str_of_nat,
}
use k8s_check.Dict.{Dict, lookup}
use k8s_check.Causal.Finding.{Finding}

pub record Hypothesis : Type 0 where
  pub finding_id : Option String
  pub rule_id : Option String
  pub title : Option String
  pub score : ℕ
  pub status : String
  pub role : Option String
  pub reasons : List String
  pub downstream_findings : List String
  pub evidence : List String
  pub counter_evidence : List String
  pub missing_checks : List String
  pub rank : ℕ

-- The identifiers of the consequences that a finding may explain.
abbrev pub Downstream : Type 0
Downstream = Dict (Option String) (List String)

abbrev severity_score : Dict String ℕ
severity_score = ("critical", 35) ∷ ("warning", 20) ∷ ("info", 5) ∷ []

abbrev confidence_score : Dict String ℕ
confidence_score = ("high", 15) ∷ ("medium", 10) ∷ ("low", 5) ∷ ("none", 0) ∷ []

abbrev status_score : Dict String ℕ
status_score = ("active", 15) ∷ ("unknown", 5) ∷ ("resolved", 0) ∷ []

abbrev severity_labels : Dict String String
severity_labels =
    ("critical", "критическая") ∷ ("warning", "предупреждение") ∷ ("info", "сведение") ∷ []

abbrev status_labels : Dict String String
status_labels = ("active", "активно") ∷ ("unknown", "неизвестно") ∷ ("resolved", "завершилось") ∷ []

abbrev confidence_labels : Dict String String
confidence_labels =
    ("high", "высокая")
    ∷ ("medium", "средняя")
    ∷ ("low", "низкая")
    ∷ ("none", "причина не установлена")
    ∷ []

-- `table.get(key, default)`, where the key may be `None`
abbrev get {ℓ} : {A : Type ℓ} → Dict String A → Option String → A → A
get table none default = default
get table (some key) default = get_or (lookup key table) default

abbrev when : Bool → String → List String
when b text = if b then text ∷ [] else []

abbrev status_of : Finding → String
status_of finding = or_text finding.finding_status "unknown"

abbrev confidence_of : Finding → String
confidence_of finding = or_text finding.causal_confidence "none"

role_score : Option String → ℕ
role_score role =
    if role == some "possible_cause" then 20 else if role == some "configuration_risk" then 5 else 0

-- The additions to the score, the consequences that the finding explains included.
unfoldable pub gains : Finding → ℕ → ℕ
unfolding role_score
gains finding explained =
    get severity_score finding.severity 0
    + role_score finding.finding_role
    + get_or (lookup (status_of finding) status_score) 0
    + get_or (lookup (confidence_of finding) confidence_score) 0
    + min 15 (5 * explained)

-- The subtractions from the score.
unfoldable pub losses : Finding → ℕ
losses finding =
    min 15 (5 * length finding.counter_evidence) + min 10 (2 * length finding.missing_checks)

-- `max(0, min(100, score))`: the subtraction of the naturals stops at 0, as the outer `max` does.
unfoldable pub score : Finding → ℕ → ℕ
unfolding gains losses
score finding explained = min 100 (gains finding explained - losses finding)

reasons : Finding → ℕ → List String
reasons finding explained =
    ("важность: " <> get severity_labels finding.severity "не указана")
    ∷ (when (finding.finding_role == some "possible_cause") "правило описывает возможную причину"
        ++ (when
              (not (finding.finding_role == some "possible_cause")
                && finding.finding_role == some "configuration_risk")
              "обнаружен конфигурационный риск"
            ++ (("состояние: " <> get_or (lookup (status_of finding) status_labels) "неизвестно")
                ∷ ("уверенность в причинной связи: "
                    <> get_or (lookup (confidence_of finding) confidence_labels) "не указана")
                ∷ (when (ltb 0 explained) ("может объяснять следствий: " <> str_of_nat explained)
                    ++ (when (not (is_empty finding.counter_evidence)) (
                          "есть данных против гипотезы: "
                          <> str_of_nat (length finding.counter_evidence))
                        ++ when (not (is_empty finding.missing_checks)) (
                            "не выполнено проверок: "
                            <> str_of_nat (length finding.missing_checks)))))))

hypothesis : Downstream → Finding → Hypothesis
unfolding score reasons
hypothesis downstream finding =
    let explained = sort_by str_leb (get_or (lookup finding.id downstream) []) in
    record {
      finding_id = finding.id;
      rule_id = finding.rule_id;
      title = or_else finding.title finding.rule_id;
      score = score finding (length explained);
      status = status_of finding;
      role = finding.finding_role;
      reasons = reasons finding (length explained);
      downstream_findings = explained;
      evidence = take 10 finding.evidence;
      counter_evidence = take 10 finding.counter_evidence;
      missing_checks = take 10 finding.missing_checks;
      rank = 0;
    }

-- The loop over the findings, which skips the consequences.
unfoldable pub hypotheses : Downstream → List Finding → List Hypothesis
unfolding hypothesis
hypotheses downstream [] = []
hypotheses downstream (finding ∷ findings) =
    let rest = hypotheses downstream findings in
    if finding.finding_role == some "consequence"
    then rest
    else hypothesis downstream finding ∷ rest

-- The order of the sort key `(-score, rule_id, finding_id)`.
unfoldable pub ranks_before : Hypothesis → Hypothesis → Bool
ranks_before a b =
    let ra = or_text a.rule_id "" in
    let rb = or_text b.rule_id "" in
    ltb b.score a.score
    || (eqb a.score b.score
        && (str_ltb ra rb
            || (ra == rb && str_leb (or_text a.finding_id "") (or_text b.finding_id ""))))

-- `for rank, item in enumerate(result, 1)`
unfoldable pub number_from : ℕ → List Hypothesis → List Hypothesis
number_from n [] = []
number_from n (h ∷ hs) = record h { rank = n } ∷ number_from (n + 1) hs

unfoldable pub rank_hypotheses : List Finding → Downstream → List Hypothesis
unfolding hypotheses ranks_before number_from
rank_hypotheses findings downstream =
    number_from 1 (sort_by ranks_before (hypotheses downstream findings))
