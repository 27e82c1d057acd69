-- ===== src/Config/Tests.antt =====
-- Core/src/config.cpp: a table that cannot be printed.
use ocserver.Common.{codes}
use ocserver.Config.{Configure}
use ocserver.Config.Toy.{Toy, settings}

abbrev tables : Configure Toy
tables = record { config_path = codes "a"; js = settings }
