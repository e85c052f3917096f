-- ===== src/Core/Examples/Hints.antt =====
-- A hint set with one hint that runs out.
use uperf_linux_rev.Core.Scene.{touch}
use uperf_linux_rev.Base.Maps.{values}
use uperf_linux_rev.Base.{◌≡◌, some, [], ◌∷◌, arith, keep}
use uperf_linux_rev.Core.Hints.{HintSet, counts, dominant_at_excluding, expire}
use uperf_linux_rev.Core.Hints.Dominance.{
  Dominates, dominant_at_excluding-Dominates, dominant_at_excluding-expire,
}

abbrev hints : HintSet
hints = (touch, record { scene = touch; activated_at = 5; expires_at = some 10 }) ∷ []

dominant_at_excluding-Dominates_example :
    Dominates (keep (counts 7 []) (values hints)) (dominant_at_excluding 7 [] hints)
dominant_at_excluding-Dominates_example = dominant_at_excluding-Dominates 7 [] hints

dominant_at_excluding-expire_example :
    dominant_at_excluding 12 [] (expire 11 hints).0 ≡ dominant_at_excluding 12 [] hints
dominant_at_excluding-expire_example = dominant_at_excluding-expire 11 12 [] hints (omega arith)
