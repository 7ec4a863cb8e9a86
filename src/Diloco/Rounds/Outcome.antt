-- ===== src/Diloco/Rounds/Outcome.antt =====
-- What a processed batch does to the model.
use panofabric_engine.Prelude.{string_eq}
use panofabric_engine.Prelude.Dict.{Dict}
use panofabric_engine.Diloco.Server.{Server}
use panofabric_engine.Diloco.Dylu.{Dylu}
