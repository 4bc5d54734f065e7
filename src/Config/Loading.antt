-- ===== src/Config/Loading.antt =====
-- Loading twice.
use rms_gate.Base.{ℕ, ◌≡◌, refl, sym, ap, ◌∙◌, true, none, some, List}
use rms_gate.Float64.{Floats}
use rms_gate.Config.{Config, Disk, default_config, save_config, load_config}

load_config-first :
    (fl : Floats) (d : Disk fl.Float) (text : List ℕ)
    → d.make_dir ≡ true
    → d.encode (default_config fl) ≡ some text
    → d.write text ≡ (some text, true)
    → load_config fl d none ≡ (default_config fl, some text)
unfolding load_config save_config
load_config-first fl d text dir enc wrote =
    rw (dir, load_config) (rw (enc, save_config) (rw (wrote, save_config) refl))

load_config-reads :
    (fl : Floats) (d : Disk fl.Float) (text : List ℕ) (cfg : Config fl.Float)
    → d.readable ≡ true
    → d.decode text ≡ some cfg
    → load_config fl d (some text) ≡ (cfg, some text)
unfolding load_config
load_config-reads fl d text cfg can dec = rw (can, load_config) (rw (dec, load_config) refl)

-- The first start without a file leaves one, and the next start, which reads it, has the same
-- configuration: with a directory that can be made, a write that succeeds, a file that can be read,
-- and a default that is decoded from what it is encoded to.
load_config-again :
    (fl : Floats) (d : Disk fl.Float) (text : List ℕ)
    → d.make_dir ≡ true
    → d.readable ≡ true
    → d.encode (default_config fl) ≡ some text
    → d.decode text ≡ some (default_config fl)
    → d.write text ≡ (some text, true)
    → let (cfg, file) = load_config fl d none in
      (file ≡ some text) × (load_config fl d file ≡ (cfg, some text))
load_config-again fl d text dir can enc dec wrote =
    let first = load_config-first fl d text dir enc wrote in
    let second = load_config-reads fl d text (default_config fl) can dec in
    (
      ap (λ r. r.1) first,
      ap (λ r. load_config fl d r.1) first ∙ second ∙ ap (λ r. (r.0, some text)) (sym first),
    )
