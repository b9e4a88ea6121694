-- ===== src/Cli/Examples.antt =====
-- parseTarget at a concrete target.
use gortexa.Common.Text.{codes}
use gortexa.Cli.Names.{parse_target}
use gortexa.Cli.Names.Snake.{IsFaithful, parse_target-IsFaithful}

parse_target-IsFaithful_example :
    IsFaithful (parse_target (codes "billing/v1") (codes "InvoiceItem"))
parse_target-IsFaithful_example = parse_target-IsFaithful (codes "billing/v1") (codes "InvoiceItem")
