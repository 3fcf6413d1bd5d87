-- ===== src/Util/Examples.antt =====
-- Header values as the servers compare them.
use github_codespaces_proxy.Base.{◌≡◌, refl, codes}
use github_codespaces_proxy.Util.{trim}

trim_test : trim (codes "  web socket ") ≡ codes "web socket"
unfolding trim
trim_test = refl
