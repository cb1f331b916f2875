-- ===== src/Config/Paths.antt =====
-- config.rs: `resolve_path`, with the paths of Unix.
use ferrumdns.Base.{Text, codes, starts_with, ends_with, is_empty, ◌++◌, if◌then◌else◌}

abbrev pub join : Text → Text → Text
join base p = if ends_with (codes "/") base then base ++ p else base ++ (codes "/" ++ p)

unfoldable pub resolve_path : Text → Text → Text
unfolding starts_with ends_with
resolve_path base p =
    if starts_with (codes "/") p then p else if is_empty base then p else join base p
