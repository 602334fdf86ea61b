-- ===== src/Boot/Tests.antt =====
-- Starts of the program.
use downloader.Base.{◌≡◌, refl, [], ◌∷◌}
use downloader.Boot.{path_to_slice, with_commas, path_to_slice-with_commas}

-- The space is not trimmed.
keeps_space : path_to_slice "a.yaml, b.yaml" ≡ "a.yaml" ∷ " b.yaml" ∷ []
unfolding path_to_slice
keeps_space = refl

path_to_slice-with_commas_example : with_commas (path_to_slice "a.yaml, b.yaml") ≡ "a.yaml, b.yaml"
path_to_slice-with_commas_example = path_to_slice-with_commas "a.yaml, b.yaml"
