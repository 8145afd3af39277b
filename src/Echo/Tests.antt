-- ===== src/Echo/Tests.antt =====
-- The echo programs at small texts.
use open_source_project.Prelude.{List, [], ◌∷◌, Bytes, codes}

abbrev messages : List Bytes
messages = codes "hi" ∷ codes "ho" ∷ []
