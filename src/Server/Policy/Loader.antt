-- ===== src/Server/Policy/Loader.antt =====
-- ml_server/policy/loader.py: from the contents of the two files to the policy and the lists. The
-- sections `category_patterns` and `gating` are handed on as they are; a list of pairs, which
-- `dict` would take for a mapping, counts as an error there. `float` of a threshold is the number
-- itself, as it is for integers up to 2 ^ 53.
use Prim.Native.String.{String}
use inha_rada.Common.{
  ℕ, false, not, Option, none, some, List, [], ◌∷◌, if◌then◌else◌, ℤ, pos, pos_part,
}
use inha_rada.Server.Policy.Yaml.{
  Value, num, sequence, Items, nil, item, Fields, end, not_found, not_mapping, bad_version,
  not_a_list, bad_conversion, Result, ok, raised, ◌>>=◌, ◌>>◌, get, as_mapping, as_number, is_false,
  truncated,
}
use inha_rada.Server.Policy.Validation.{check_version, Limits, Thresholds, validate_scoring_policy}
use inha_rada.Server.Policy.Sections.{
  Texts, to_int, get_or, DosDetection, build_dos_detection, EpisodeDedupe, build_episode_dedupe,
}
use inha_rada.Server.Verdict.Promotion.{PromotionGating}

-- `_read_yaml`: the file's contents, or `none` where there is no file.
unfoldable pub read_yaml : Option Value → Result Fields
unfolding as_mapping
read_yaml none = raised not_found
read_yaml (some v) = elim (as_mapping v) [ none ↦ raised not_mapping | some fs ↦ ok fs ]

-- `dict(data.get(k) or {})`, and `raw.get(k) or {}` of which `get` is called.
unfoldable pub section_of : Fields → String → Result Fields
unfolding get is_false as_mapping
section_of d k = elim (get k d) [
  | none ↦ ok end
  | some v ↦
      if is_false v
      then ok end
      else elim (as_mapping v) [ none ↦ raised (bad_conversion k) | some fs ↦ ok fs ]
]

-- `int(section.get(k, 0) or 0)` outside of a handler; a negative count asks for nothing, as 0.
unfoldable pub count_of : Texts → Fields → String → Result ℕ
unfolding to_int get_or
count_of tx fs k = do
  n ← to_int tx (get_or fs k (num (pos 0)) (num (pos 0)))
  elim n [ none ↦ raised (bad_conversion k) | some m ↦ ok (pos_part m) ]

abbrev pub disabled : PromotionGating
disabled = record {
  enabled = false;
  medium_min_signal_count = 0;
  medium_min_category_count = 0;
  high_min_signal_count = 0;
  high_min_category_count = 0;
}

-- `_build_promotion_gating`, without the texts of its fast path.
unfoldable pub build_promotion_gating : Texts → Option Value → Result PromotionGating
unfolding as_mapping section_of count_of get is_false
build_promotion_gating tx none = ok disabled
build_promotion_gating tx (some raw) = elim (as_mapping raw) [
  | none ↦ ok disabled
  | some fs ↦ do
    medium ← section_of fs "medium"
    high ← section_of fs "high"
    medium_signals ← count_of tx medium "min_signal_count"
    medium_categories ← count_of tx medium "min_category_count"
    high_signals ← count_of tx high "min_signal_count"
    high_categories ← count_of tx high "min_category_count"
    ok (record {
      enabled = elim (get "enabled" fs) [ none ↦ false | some v ↦ not (is_false v) ];
      medium_min_signal_count = medium_signals;
      medium_min_category_count = medium_categories;
      high_min_signal_count = high_signals;
      high_min_category_count = high_categories;
    })
]

-- `ScoringPolicy`; limits are whole numbers, thresholds are thousandths.
pub record ScoringPolicy : Type 0 where
  pub version : String
  pub thresholds : Thresholds
  pub limits : Limits
  pub scores : Fields
  pub context_discounts : Fields
  pub category_patterns : Fields
  pub gating : Fields
  pub promotion_gating : PromotionGating
  pub dos_detection : DosDetection
  pub episode_dedupe : EpisodeDedupe

unfoldable pub whole_limits : Limits → Limits
unfolding truncated
whole_limits l = record {
  ml_score_cap = truncated l.ml_score_cap;
  max_context_discount = truncated l.max_context_discount;
  danger_override_max_discount = truncated l.danger_override_max_discount;
}

-- The whole number at a key of a validated table, and 0 where it is missing.
unfoldable pub entry : Option Value → ℤ
unfolding truncated as_number
entry none = pos 0
entry (some v) = elim (as_number v) [ none ↦ pos 0 | some n ↦ truncated n ]

-- `ContextDiscounts.get(k)`
unfoldable pub discount : ScoringPolicy → String → ℤ
unfolding get entry
discount p k = entry (get k p.context_discounts)

-- The policy of the file, without the cache.
unfoldable pub load_scoring_policy : Texts → Option Value → Result ScoringPolicy
unfolding read_yaml validate_scoring_policy whole_limits section_of build_promotion_gating
    build_dos_detection build_episode_dedupe
load_scoring_policy tx file = do
  d ← read_yaml file
  c ← validate_scoring_policy tx.is_blank d
  patterns ← section_of d "category_patterns"
  gating ← section_of d "gating"
  promotion ← build_promotion_gating tx (get "promotion_gating" d)
  dos ← build_dos_detection tx (get "dos_detection" d)
  dedupe ← build_episode_dedupe tx (get "episode_dedupe" d)
  ok (record {
    version = tx.str_of c.version;
    thresholds = c.thresholds;
    limits = whole_limits c.limits;
    scores = c.scores;
    context_discounts = c.context_discounts;
    category_patterns = patterns;
    gating = gating;
    promotion_gating = promotion;
    dos_detection = dos;
    episode_dedupe = dedupe;
  })

pub record AllowList : Type 0 where
  pub version : String
  pub whitelist_processes : List String
  pub game_render_processes : List String
  pub compile_encode_processes : List String
  pub mining_processes : List String
  pub mining_pool_ip_prefixes : List String
  pub infra_ips : List String
  pub agent_processes : List String

unfoldable pub texts_of : Texts → Items → List String
texts_of tx nil = []
texts_of tx (item v vs) = tx.str_of v ∷ texts_of tx vs

unfoldable pub as_list : String → Value → Result Items
as_list k (sequence vs) = ok vs
as_list k _ = raised (not_a_list k)

-- `_fset`, as a list
unfoldable pub fset : Texts → Fields → String → Result (List String)
unfolding get is_false as_list texts_of
fset tx d k = elim (get k d) [
  | none ↦ ok []
  | some v ↦ if is_false v then ok [] else (as_list k v >>= λ (vs : Items). ok (texts_of tx vs))
]

-- `load_allowlist`, without the cache.
unfoldable pub load_allowlist : Texts → Option Value → Result AllowList
unfolding read_yaml check_version fset get
load_allowlist tx file = do
  d ← read_yaml file
  version ← elim (get "version" d) [ none ↦ raised bad_version | some v ↦ ok v ]
  check_version tx.is_blank version
  white ← fset tx d "whitelist_processes"
  games ← fset tx d "game_render_processes"
  compilers ← fset tx d "compile_encode_processes"
  miners ← fset tx d "mining_processes"
  pools ← fset tx d "mining_pool_ip_prefixes"
  infra ← fset tx d "infra_ips"
  agents ← fset tx d "agent_processes"
  ok (record {
    version = tx.str_of version;
    whitelist_processes = white;
    game_render_processes = games;
    compile_encode_processes = compilers;
    mining_processes = miners;
    mining_pool_ip_prefixes = pools;
    infra_ips = infra;
    agent_processes = agents;
  })
