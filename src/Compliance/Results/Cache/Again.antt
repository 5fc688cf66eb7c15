-- ===== src/Compliance/Results/Cache/Again.antt =====
-- What `load_cache` makes of any file is loaded unchanged once it was saved.
use psychicstd.Base.{text_eq}
