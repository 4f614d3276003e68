-- ===== src/Ranking/Titles.antt =====
-- The franchise of a title, from backlogg/recommendations/ranking.py.
use backlogg.Prelude.{
  Bool, not, ◌&&◌, List, [], ◌∷◌, Option, none, some, String, str_eq, leb, if◌then◌else◌,
}
use Prim.Native.String.{len, slice, count}
use text.Mathlib.Text.{starts_with}

-- What `re` and the methods of `str` answer: the text before the first subtitle separator, the text
-- with its other marks blanked, the text without a trailing sequel marker, and the lower-case words
-- joined by single spaces.
pub record TitleOps : Type 0 where
  pub strip : String → String
  pub before_subtitle : String → String
  pub blank_marks : String → String
  pub drop_sequel_tail : String → String
  pub lower_words : String → String

abbrev articles : List String
articles = "the " ∷ "a " ∷ "an " ∷ "el " ∷ "la " ∷ "los " ∷ "las " ∷ []

-- The first article that the key starts with is cut off.
unfoldable pub drop_article : List String → String → String
drop_article [] key = key
drop_article (article ∷ rest) key =
    if starts_with key article then slice key (len article) (len key) else drop_article rest key

unfoldable pub long_enough : String → Option String
long_enough key = if leb 3 (count key) then some key else none

unfoldable pub series_key : TitleOps → Bool → String → String → Option String
series_key ops had_subtitle normalised stripped =
    if not had_subtitle && str_eq stripped normalised
    then none
    else long_enough (drop_article articles (ops.lower_words stripped))

unfoldable pub franchise_key : TitleOps → String → Option String
franchise_key ops title =
    let whole = ops.strip title in
    let head = ops.before_subtitle whole in
    let normalised = ops.strip (ops.blank_marks head) in
    if str_eq title ""
    then none
    else series_key ops (not (str_eq head whole)) normalised
        (ops.strip (ops.drop_sequel_tail normalised))
