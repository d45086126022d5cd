-- ===== src/Appearance/FontSize/Tests.antt =====
-- Two steps up from 130%.
use openscale.Base.{codes, List, [], ◌∷◌, ◌≡◌, refl}
use openscale.Base.Decimal.{show}
use openscale.Appearance.FontSize.{Click, increase, decrease, click, click_all, scale_text}

abbrev clicks : List Click
clicks = increase ∷ increase ∷ decrease ∷ []

back_at_130 : scale_text (click_all 130 clicks) ≡ codes "130%"
unfolding click_all click scale_text show
back_at_130 = refl
