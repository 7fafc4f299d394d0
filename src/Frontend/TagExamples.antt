-- ===== src/Frontend/TagExamples.antt =====
-- The filters of the templates at concrete inputs.
use doorito.Base.{ℕ, none, ◌≡◌, refl}
use doorito.Frontend.Tags.{get_attr, instance_of}

no_attribute : get_attr {V = ℕ} 0 (instance_of (λ name. none)) "name" ≡ 0
unfolding get_attr
no_attribute = refl
