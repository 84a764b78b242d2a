-- ===== src/Domain/Ports/Tests.antt =====
-- Port ranges read and printed (domain/model.go).
use huawei_api.Base.{◌≡◌, refl, List, [], ◌∷◌}
use huawei_api.Domain.Errors.{ok}
use huawei_api.Domain.Model.{PortRange, port_range_valid}
use huawei_api.Domain.Ports.{format_port_ranges, parse_port_ranges}
use huawei_api.Domain.Ports.RoundTrip.{parse_port_ranges-format}

abbrev web : List PortRange
web =
    record { lo = 80; hi = 80 }
    ∷ record { lo = 8000; hi = 8999 }
    ∷ record { lo = 1; hi = 65535 }
    ∷ []

parse_port_ranges-format_example : parse_port_ranges (format_port_ranges web) ≡ ok web
unfolding port_range_valid
parse_port_ranges-format_example = parse_port_ranges-format web (refl, (refl, (refl, tt)))
