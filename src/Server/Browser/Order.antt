-- ===== src/Server/Browser/Order.antt =====
-- internal/server/http_browser.go: the comparison that handleHTTP gives to sort.Slice.
use warpbox.Base.{◌≡◌, refl, Bool, true, false, [], ◌∷◌, arith}
use warpbox.Base.Text.{Text}
use warpbox.Server.Browser.{
  HtmlEntry, SortField, by_name, by_size, by_type, text_lt, less, less_directed,
}

pub text_lt_irrefl : (s : Text) → text_lt s s ≡ false
unfolding text_lt
text_lt_irrefl [] = refl
text_lt_irrefl (c ∷ s) = ground (arith, text_lt_irrefl s)

text_lt_asymm : (s t : Text) → text_lt s t ≡ true → text_lt t s ≡ false
unfolding text_lt
text_lt_asymm [] [] h = refl
text_lt_asymm [] (d ∷ t) h = refl
text_lt_asymm (c ∷ s) [] h = cc
text_lt_asymm (c ∷ s) (d ∷ t) h = ground (arith, text_lt_asymm s t)

-- What is not below lies at or above: two such steps make one.
text_lt_between : (s t u : Text) → text_lt s t ≡ false → text_lt t u ≡ false → text_lt s u ≡ false
unfolding text_lt
text_lt_between [] [] [] h k = refl
text_lt_between [] [] (e ∷ u) h k = cc
text_lt_between [] (d ∷ t) u h k = cc
text_lt_between (c ∷ s) [] [] h k = refl
text_lt_between (c ∷ s) [] (e ∷ u) h k = cc
text_lt_between (c ∷ s) (d ∷ t) [] h k = refl
text_lt_between (c ∷ s) (d ∷ t) (e ∷ u) h k = ground (arith, text_lt_between s t u)

-- A strict order in which what is not comparable is alike, as sort.Slice wants it.
abbrev pub IsStrictWeak : (HtmlEntry → HtmlEntry → Bool) → Type 0
IsStrictWeak lt =
    ((a : HtmlEntry) → lt a a ≡ false)
    × ((a b : HtmlEntry) → lt a b ≡ true → lt b a ≡ false)
    × ((a b c : HtmlEntry) → lt a b ≡ false → lt b c ≡ false → lt a c ≡ false)

less-IsStrictWeak : (field : SortField) → IsStrictWeak (less field)
unfolding less
less-IsStrictWeak by_name = (
  λ a. text_lt_irrefl a.name,
  λ a b. text_lt_asymm a.name b.name,
  λ a b c. text_lt_between a.name b.name c.name,
)
less-IsStrictWeak by_size = (
  λ a. ground (arith, text_lt_irrefl a.name),
  λ a b h. ground (arith, text_lt_asymm a.name b.name),
  λ a b c h k. ground (arith, text_lt_between a.name b.name c.name),
)
less-IsStrictWeak by_type = (
  λ a. ground (arith, text_lt_irrefl a.name, text_lt_irrefl a.mime),
  λ a b h. ground (arith, text_lt_asymm a.name b.name, text_lt_asymm a.mime b.mime),
  λ a b c h k.
      ground (arith, text_lt_between a.name b.name c.name, text_lt_between a.mime b.mime c.mime),
)

-- In ascending order the comparison is one that sort.Slice can sort by, for each of the three fields;
-- in descending order it is not, since it puts every entry below itself.
pub less_directed-IsStrictWeak :
    (field : SortField)
    → IsStrictWeak (less_directed field false)
      × ((a : HtmlEntry) → less_directed field true a a ≡ true)
unfolding less_directed
less_directed-IsStrictWeak field =
    let order = less-IsStrictWeak field in (order, λ a. rw (order.0 a) refl)
