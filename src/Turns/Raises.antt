-- ===== src/Turns/Raises.antt =====
-- turn_registry.py `load_or_bump`: when a startup raises.
use oc_slimapi.Prelude.{◌≡◌, Option, some, ◌⊎◌}
use oc_slimapi.Turns.Incarnation.{Content, unsearchable, not_utf8, Reading}

-- A file that a reading raises on: it is not UTF-8, or its directory may not be searched.
abbrev pub Raising : Content → Type 0
Raising c = (c ≡ not_utf8) ⊎ (c ≡ unsearchable)

-- There is a legacy file, and a reading raises on it.
abbrev pub LegacyRaising : Option Content → Type 0
LegacyRaising l = (l ≡ some not_utf8) ⊎ (l ≡ some unsearchable)
