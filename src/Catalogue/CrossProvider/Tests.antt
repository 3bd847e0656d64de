-- ===== src/Catalogue/CrossProvider/Tests.antt =====
-- The binding of a verified pair on small tables.
use noshiro_db_backend.Base.{refl, [], ◌∷◌}
use noshiro_db_backend.Catalogue.CrossProvider.{WorkType, CrossWorld, bind_verified_pair}
use noshiro_db_backend.Catalogue.CrossProvider.Settled.{SettlesPair, bind_verified_pair-settles}
use noshiro_db_backend.Catalogue.Samples.{start, start-IsWellFormed}

abbrev galgames : CrossWorld
galgames = record {
  catalogue = start;
  works =
      record { entity = 1; work_type = WorkType.game }
      ∷ record { entity = 2; work_type = WorkType.galgame }
      ∷ record { entity = 3; work_type = WorkType.anime }
      ∷ [];
  evidence = [];
}

bind_verified_pair-settles_example :
    SettlesPair start 1 2 (bind_verified_pair galgames 1 2 90 "v17" 21 50)
bind_verified_pair-settles_example =
    bind_verified_pair-settles galgames 1 2 90 "v17" 21 50 start-IsWellFormed (refl, tt) refl
