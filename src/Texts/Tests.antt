-- ===== src/Texts/Tests.antt =====
-- Runs of the limits and the searches of texts.
use geoji_agent.Base.{◌≡◌, refl, true, false, [], ◌∷◌}
use geoji_agent.Texts.{contains, replace_invest, Text}

abbrev invest : Text
invest = 53_804 ∷ 51_088 ∷ 54_644 ∷ 1 ∷ []

replaced : replace_invest invest ≡ 53_804 ∷ 51_088 ∷ 1 ∷ []
unfolding replace_invest
replaced = refl

found : contains (2 ∷ 3 ∷ []) (1 ∷ 2 ∷ 3 ∷ []) ≡ true
unfolding contains
found = refl

not_found : contains (3 ∷ 2 ∷ []) (1 ∷ 2 ∷ 3 ∷ []) ≡ false
unfolding contains
not_found = refl
